-- ===== src/Prelude/Text.antt =====
-- Joining texts: `f"{a}{b}"`.
use Prim.Native.String.{String, ◌++◌}
use mathlib.Core.Path.{◌≡◌}
use text.Mathlib.TextLemmas.{
  append-nil, nil-append, append_assoc, append_cancel_left, append_cancel_right,
}

infixr 65 ◌<>◌
abbrev pub ◌<>◌ : String → String → String
a <> b = a ++ b

pub <>_cancel_left : (s t u : String) → s <> t ≡ s <> u → t ≡ u
<>_cancel_left = append_cancel_left

pub <>_cancel_right : (s t u : String) → s <> u ≡ t <> u → s ≡ t
<>_cancel_right = append_cancel_right

pub <>_nil : (s : String) → s <> "" ≡ s
<>_nil = append-nil

pub nil_<> : (s : String) → "" <> s ≡ s
nil_<> = nil-append

pub <>_assoc : (s t u : String) → (s <> t) <> u ≡ s <> (t <> u)
<>_assoc = append_assoc
