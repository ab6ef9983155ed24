-- ===== src/Base/Text.antt =====
-- Texts as lists of bytes.
use Prim.Native.Nat.{ℕ}
use Prim.Native.Char.{code}
use Prim.Native.String.{String}
use mathlib.Core.Path.{◌≡◌, refl}
use mathlib.Core.Bool.{Bool, true, false, ◌&&◌}
use mathlib.Core.Logic.{◌↔◌}
use mathlib.Core.List.{List, [], ◌∷◌}
use native.Mathlib.Omega.{arith}
use magna.Base.Tests.{nat_eqb, nat_eqb_iff, Eq}

abbrev pub Bytes : Type 0
Bytes = List ℕ

-- The bytes of an ASCII literal.
abbrev pub bytes : String → Bytes
bytes String.[] = []
bytes (String.◌∷◌ c s) = code c ∷ bytes s

-- `==` of byte strings.
abbrev pub bytes_eqb : Bytes → Bytes → Bool
bytes_eqb [] [] = true
bytes_eqb [] (d ∷ ds) = false
bytes_eqb (c ∷ cs) [] = false
bytes_eqb (c ∷ cs) (d ∷ ds) = nat_eqb c d && bytes_eqb cs ds

pub bytes_eqb_iff : (a b : Bytes) → (bytes_eqb a b ≡ true) ↔ (a ≡ b)
bytes_eqb_iff [] [] = (λ h. refl, λ h. refl)
bytes_eqb_iff [] (d ∷ ds) = (λ h. cc, λ h. cc)
bytes_eqb_iff (c ∷ cs) [] = (λ h. cc, λ h. cc)
bytes_eqb_iff (c ∷ cs) (d ∷ ds) =
    let ih = bytes_eqb_iff cs ds in
    let head = nat_eqb_iff c d in
    (λ h. ground (arith, ih, head, h), λ h. ground (arith, ih, head, h))

instance abbrev pub bytes_eq : Eq Bytes
bytes_eq = record { beq = bytes_eqb; beq_iff = bytes_eqb_iff }
