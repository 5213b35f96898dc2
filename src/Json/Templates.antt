-- ===== src/Json/Templates.antt =====
-- `ReplaceJSONPlaceholders` of pkg/json/json.go: literal text, escapes and placeholders.
use authorino.Common.{
  ℕ, Bytes, true, false, ◌==◌, ◌||◌, is_empty, [], ◌∷◌, ◌++◌, if◌then◌else◌, ◌≡◌, refl, arith, ap,
  ◌∙◌, Bool-cases, inl, inr,
}
use mathlib.Core.List.{append-nil, append_assoc}
use authorino.Json.{
  Scan, start, scan, scan_byte, replace_json_placeholders, open_brace, close_brace, backslash,
}

-- A text written as a template for itself: a backslash before each opening brace and backslash.
unfoldable pub escape : Bytes → Bytes
escape [] = []
escape (b ∷ s) =
    if b == open_brace
    then backslash ∷ b ∷ escape s
    else if b == backslash
    then backslash ∷ b ∷ escape s
    else b ∷ escape s

-- Between two literal bytes the scan has only written bytes.
abbrev written : Bytes → Scan
written r = record start { replaced = r }

scan-append :
    (get : Bytes → Bytes) (s : Scan) (x y : Bytes) → scan get s (x ++ y) ≡ scan get (scan get s x) y
unfolding scan
scan-append get s [] y = refl
scan-append get s (b ∷ x) y = scan-append get (scan_byte get s b) x y

byte-escaped :
    (get : Bytes → Bytes) (r : Bytes) (b : ℕ)
    → ((b == open_brace) || (b == backslash)) ≡ true
    → scan_byte get (scan_byte get (written r) backslash) b ≡ written (r ++ (b ∷ []))
unfolding scan_byte
byte-escaped get r b h = ground arith

byte-literal :
    (get : Bytes → Bytes) (r : Bytes) (b : ℕ)
    → (b == open_brace) ≡ false
    → (b == backslash) ≡ false
    → scan_byte get (written r) b ≡ written (r ++ (b ∷ []))
unfolding scan_byte
byte-literal get r b h k = ground arith

scan-escape :
    (get : Bytes → Bytes) (r s : Bytes) → scan get (written r) (escape s) ≡ written (r ++ s)
unfolding scan escape
scan-escape get r [] = simp append-nil
scan-escape get r (b ∷ s) =
    let ih : scan get (written (r ++ (b ∷ []))) (escape s) ≡ written (r ++ (b ∷ s)) =
      scan-escape get (r ++ (b ∷ [])) s ∙ ap written (append_assoc r (b ∷ []) s) in
    elim (Bool-cases (b == open_brace)) [
      | inl e ↦
          rw e (ap (λ (t : Scan). scan get t (escape s)) (byte-escaped get r b (ground arith)) ∙ ih)
      | inr e ↦ elim (Bool-cases (b == backslash)) [
        | inl f ↦ rw e (
            rw f
              (ap (λ (t : Scan). scan get t (escape s)) (byte-escaped get r b (ground arith)) ∙ ih))
        | inr f ↦
            rw e (rw f (ap (λ (t : Scan). scan get t (escape s)) (byte-literal get r b e f) ∙ ih))
      ]
    ]

-- Bytes of a selector: no brace. A backslash is kept as it is.
abbrev pub IsPlain : Bytes → Type 0
IsPlain [] = Unit
IsPlain (b ∷ s) = ((b == open_brace) ≡ false) × ((b == close_brace) ≡ false) × IsPlain s

abbrev inside : Bytes → Bytes → Scan
inside r buffer = record start { replaced = r; buffer = buffer; inside_placeholder = true }

byte-plain :
    (get : Bytes → Bytes) (r buffer : Bytes) (b : ℕ)
    → (b == open_brace) ≡ false
    → (b == close_brace) ≡ false
    → scan_byte get (inside r buffer) b ≡ inside r (buffer ++ (b ∷ []))
unfolding scan_byte
byte-plain get r buffer b h k = ground arith

scan-plain :
    (get : Bytes → Bytes) (r buffer s : Bytes)
    → IsPlain s
    → scan get (inside r buffer) s ≡ inside r (buffer ++ s)
unfolding scan
scan-plain get r buffer [] h = simp append-nil
scan-plain get r buffer (b ∷ s) h =
    rw (byte-plain get r buffer b h.0 h.1)
      (scan-plain get r (buffer ++ (b ∷ [])) s h.2 ∙ ap (inside r) (append_assoc buffer (b ∷ []) s))

-- A text in which opening braces and backslashes are escaped resolves to the text.
pub escape_roundtrip :
    (get : Bytes → Bytes) (s : Bytes) → replace_json_placeholders get (escape s) ≡ s
unfolding replace_json_placeholders
escape_roundtrip get s = ap (λ (t : Scan). t.replaced) (scan-escape get [] s)

close-filled :
    (get : Bytes → Bytes) (r buffer : Bytes)
    → is_empty buffer ≡ false
    → scan_byte get (inside r buffer) close_brace ≡ written (r ++ get buffer)
unfolding scan_byte
close-filled get r buffer h = rw h

-- Literal text, then a placeholder whose selector is not empty and has no brace, then literal
-- text: the result is the first text, the string found for the selector, and the last text.
pub placeholder_lem :
    (get : Bytes → Bytes) (before selector after : Bytes)
    → IsPlain selector
    → is_empty selector ≡ false
    → replace_json_placeholders get
        (escape before ++ (open_brace ∷ (selector ++ (close_brace ∷ escape after))))
      ≡ before ++ (get selector ++ after)
unfolding replace_json_placeholders
placeholder_lem get before selector after h k =
    ap (λ (t : Scan). t.replaced)
      (scan-append get start (escape before) _
        ∙ ap (λ (t : Scan). scan get t (open_brace ∷ (selector ++ (close_brace ∷ escape after))))
            (scan-escape get [] before)
        ∙ unfold scan scan_byte in
          scan-append get (inside before []) selector (close_brace ∷ escape after)
          ∙ ap (λ (t : Scan). scan get t (close_brace ∷ escape after))
              (scan-plain get before [] selector h)
          ∙ unfold scan in
            ap (λ (t : Scan). scan get t (escape after)) (close-filled get before selector k)
            ∙ scan-escape get (before ++ get selector) after
            ∙ ap written (append_assoc before (get selector) after))
