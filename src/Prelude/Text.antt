-- ===== src/Prelude/Text.antt =====
-- Go strings: sequences of bytes.
use Prim.Native.Nat.{ℕ}
use Prim.Native.Char.{code}
use Prim.Native.String.{String}
use mathlib.Core.Path.{◌≡◌}
use mathlib.Core.Logic.{◌↔◌}
use mathlib.Core.Bool.{Bool, true, false, ◌&&◌}
use mathlib.Core.List.{List, [], ◌∷◌}
use native.Mathlib.Omega.{arith}
use garance.Prelude.Tests.{Eq, ◌==◌, nat_eq, nat_beq_iff}

abbrev pub Str : Type 0
Str = List ℕ

-- The bytes of a literal, all of whose characters are ASCII.
abbrev pub bytes : String → Str
bytes String.[] = []
bytes (String.◌∷◌ c s) = code c ∷ bytes s

abbrev pub str_beq : Str → Str → Bool
str_beq [] [] = true
str_beq [] (_ ∷ _) = false
str_beq (_ ∷ _) [] = false
str_beq (a ∷ s) (b ∷ t) = a == b && str_beq s t

pub str_beq_iff : (s t : Str) → (str_beq s t ≡ true) ↔ (s ≡ t)
str_beq_iff [] [] = ground arith
str_beq_iff [] (_ ∷ _) = ground arith
str_beq_iff (_ ∷ _) [] = ground arith
str_beq_iff (a ∷ s) (b ∷ t) = ground (arith, nat_beq_iff a b, str_beq_iff s t)

instance abbrev pub str_eq : Eq Str
str_eq = record { beq = str_beq; beq_iff = str_beq_iff }
