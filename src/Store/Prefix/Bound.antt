-- ===== src/Store/Prefix/Bound.antt =====
-- The bound of a prefix, of store/prefix.go.
use punnet_sdk.Base.{
  ℕ, ◌+◌, ◌≤◌, ◌≡◌, refl, Bool, true, false, ◌&&◌, ◌==◌, [], ◌∷◌, Option, none, some, ltb,
  if◌then◌else◌, arith, All,
}
use punnet_sdk.Base.Bytes.{Bytes, bytes_lt}
use punnet_sdk.Store.Memory.Range.{in_range}
use punnet_sdk.Store.Prefix.{prefix_bound, bound_at, has_prefix}

-- The elements of the list are bytes.
abbrev pub IsBytes : Bytes → Type 0
IsBytes k = All (λ b. b ≤ 255) k

none_below : (k : Bytes) → bytes_lt k [] ≡ false
unfolding bytes_lt
none_below [] = refl
none_below (x ∷ xs) = refl

abbrev below_next : ℕ → Bool → Option Bytes
below_next b t = if t then some ((b + 1) ∷ []) else none

-- The first byte of the prefix is the one that the bound raises, where the rest has no bound.
bound_first :
    (b x : ℕ) (p xs : Bytes) (t : Bool)
    → ltb b 255 ≡ t
    → x ≤ 255
    → in_range (some p) none xs ≡ has_prefix p xs
    → in_range (some (b ∷ p)) (below_next b t) (x ∷ xs) ≡ (b == x && has_prefix p xs)
unfolding bytes_lt
bound_first b x p xs true h hx e = ground (arith, none_below xs, h, e)
bound_first b x p xs false h hx e = ground (arith, h, hx, e)

-- A key of bytes has the prefix exactly if it is not below the prefix and is below the prefix's
-- bound, if the prefix has one.
pub prefix_bound_lem :
    (p k : Bytes) → IsBytes k → in_range (some p) (prefix_bound p) k ≡ has_prefix p k
unfolding prefix_bound has_prefix bytes_lt
prefix_bound_lem [] [] hk = refl
prefix_bound_lem [] (x ∷ xs) hk = refl
prefix_bound_lem (b ∷ p) [] hk = ground arith
prefix_bound_lem (b ∷ p) (x ∷ xs) hk = go (prefix_bound p) (prefix_bound_lem p xs hk.1)
  where
    go :
        (o : Option Bytes)
        → in_range (some p) o xs ≡ has_prefix p xs
        → in_range (some (b ∷ p)) (bound_at b o) (x ∷ xs) ≡ (b == x && has_prefix p xs)
    go none e = bound_first b x p xs (ltb b 255) refl hk.0 e
    go (some q) e = ground (arith, e)
