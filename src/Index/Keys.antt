-- ===== src/Index/Keys.antt =====
-- The keys of pkg/index/index.go: the labels that `revertKey` puts in order, and the map from ids
-- to keys.
use mathlib.Core.List.{reverse, reverse-cons, reverse-append, reverse-reverse}
use authorino.Common.{
  ℕ, Bytes, bytes_eq, bytes_eq_iff, labels_eq, split, join, AllNoByte, split-AllNoByte, Bool, false,
  ◌||◌, List, [], ◌∷◌, ◌++◌, ◌≡◌, refl, sym, ap, ◌∙◌, join-split, arith, if◌then◌else◌,
}
use authorino.RadixTree.{dot, revert_key}
use authorino.RadixTree.Paths.{EndsNonEmpty}
use authorino.Index.{KeyMap, keys_of, append_key}

-- The labels of a host name from the last to the first.
unfoldable pub path_of : Bytes → List Bytes
path_of key = reverse (split dot key)

-- The host name is not empty and does not begin with a dot.
abbrev pub IsHost : Bytes → Type 0
IsHost key = EndsNonEmpty (path_of key)

pub revert_key-join : (key : Bytes) → revert_key key ≡ join dot ([] ∷ path_of key)
unfolding revert_key path_of
revert_key-join key = rw (reverse-append (split dot key) ([] ∷ []))

AllNoByte-append :
    (sep : ℕ) (xs ys : List Bytes) → AllNoByte sep xs → AllNoByte sep ys → AllNoByte sep (xs ++ ys)
AllNoByte-append sep [] ys hx hy = hy
AllNoByte-append sep (x ∷ xs) ys hx hy = (hx.0, AllNoByte-append sep xs ys hx.1 hy)

AllNoByte-reverse : (sep : ℕ) (xs : List Bytes) → AllNoByte sep xs → AllNoByte sep (reverse xs)
AllNoByte-reverse sep [] h = tt
AllNoByte-reverse sep (x ∷ xs) h =
    rw (reverse-cons x xs)
      (AllNoByte-append sep (reverse xs) (x ∷ []) (AllNoByte-reverse sep xs h.1) (h.0, tt))

pub path_of-AllNoByte : (key : Bytes) → AllNoByte dot (path_of key)
unfolding path_of
path_of-AllNoByte key = AllNoByte-reverse dot (split dot key) (split-AllNoByte dot key)

pub keys_of-append_key :
    (id j key : Bytes) (m : KeyMap)
    → keys_of j (append_key id key m)
      ≡ (if bytes_eq id j then keys_of j m ++ (key ∷ []) else keys_of j m)
unfolding keys_of append_key
keys_of-append_key id j key [] = refl
keys_of-append_key id j key ((k, ks) ∷ m) =
    ground
      (arith, keys_of-append_key id j key m, bytes_eq_iff k id, bytes_eq_iff k j, bytes_eq_iff id j)

-- One of the keys has these labels.
unfoldable pub holds_path : List Bytes → List Bytes → Bool
holds_path q [] = false
holds_path q (key ∷ ks) = labels_eq (path_of key) q || holds_path q ks

pub holds_path-append :
    (q ks : List Bytes) (key : Bytes)
    → holds_path q (ks ++ (key ∷ [])) ≡ (holds_path q ks || labels_eq (path_of key) q)
unfolding holds_path
holds_path-append q [] key = ground arith
holds_path-append q (k ∷ ks) key = ground (arith, holds_path-append q ks key)

-- Host names with the same labels are the same.
pub path_of-injective : (key host : Bytes) → path_of key ≡ path_of host → key ≡ host
unfolding path_of
path_of-injective key host e =
    sym (back key) ∙ (ap (λ (ls : List Bytes). join dot (reverse ls)) e ∙ back host)
  where
    back : (s : Bytes) → join dot (reverse (reverse (split dot s))) ≡ s
    back s = rw (reverse-reverse (split dot s)) (join-split dot s)
