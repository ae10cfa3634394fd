-- ===== src/Queries/Digests.antt =====
-- The texts that `hexdigest` returns.
use Prim.Native.Char.{Char, code}
use Prim.Native.String.{String, [], ◌∷◌, ◌++◌}
use Prim.Native.String.append
use text.Mathlib.Text.{starts_with}
use text.Mathlib.TextEquality.{starts_with_iff}
use log_librarian.Prelude.{
  ◌≡◌, sym, Bool, true, false, leb, ◌&&◌, ◌||◌, Bool-cases, inl, inr, arith,
}
use mathlib.Core.Path.{subst}

-- `0` to `9` and `a` to `f`
unfoldable pub is_hex : Char → Bool
is_hex c = (leb 48 (code c) && leb (code c) 57) || (leb 97 (code c) && leb (code c) 102)

-- The text has hexadecimal digits only.
unfoldable pub IsHex : String → Type 0
unfolding is_hex
IsHex [] = Unit
IsHex (c ∷ s) = (is_hex c ≡ true) × IsHex s

false-not-true : false ≡ true → ⊥
false-not-true e = ground (arith, e)

colon-not-IsHex : (q u : String) → IsHex ((q ++ ":") ++ u) → ⊥
unfolding IsHex is_hex
colon-not-IsHex [] u h =
    let h' = subst (λ t. IsHex (t ++ u)) (append.nil ":") h in
    false-not-true (subst (λ t. IsHex t) (append.cons _ [] u) h').0
colon-not-IsHex (c ∷ q) u h =
    let h' = subst (λ t. IsHex (t ++ u)) (append.cons c q ":") h in
    colon-not-IsHex q u (subst (λ t. IsHex t) (append.cons c (q ++ ":") u) h').1

pub IsHex-starts_with : (s q : String) → IsHex s → starts_with s (q ++ ":") ≡ false
IsHex-starts_with s q h = elim (Bool-cases (starts_with s (q ++ ":"))) [
  | inl e ↦
      let (u, p) = (starts_with_iff s (q ++ ":")).0 e in
      absurd (colon-not-IsHex q u (subst (λ t. IsHex t) (sym p) h))
  | inr e ↦ e
]
