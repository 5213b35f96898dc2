-- ===== src/Api/Kube.antt =====
-- What the types of api/ take of Kubernetes: the parts that the program uses. A label selector, the
-- metadata of an object and a time are type parameters of the types that hold them.
-- A pointer is an Option; one that the schema of the resource requires is a plain value. Slices and
-- maps that are nil count as empty, as they do for the encoding and for every loop.
use authorino.Common.{Bytes, []}

-- `LocalObjectReference`
pub record LocalObjectReference : Type 0 where
  pub name : Bytes

-- `RawExtension`
pub record RawExtension : Type 0 where
  pub raw : Bytes

abbrev pub no_raw : RawExtension
no_raw = record { raw = [] }
