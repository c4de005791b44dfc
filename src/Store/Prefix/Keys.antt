-- ===== src/Store/Prefix/Keys.antt =====
-- The keys of store/prefix.go with and without the prefix: their order, and the range of an iterator.
use punnet_sdk.Base.{◌≡◌, refl, ap, true, false, not, [], ◌∷◌, ◌++◌, Option, none, some, arith}
use punnet_sdk.Base.Bytes.{Bytes, bytes_lt, bytes_eq}
use punnet_sdk.Store.Memory.{from_start, before_end}
use punnet_sdk.Store.Memory.Range.{in_range}
use punnet_sdk.Store.Prefix.{
  PrefixStore, has_prefix, prefix_key, prefixed_start, prefixed_end, stripped,
}
use punnet_sdk.Store.Prefix.Bound.{IsBytes, prefix_bound_lem}

-- The order and the equality of keys do not read a prefix that both have.
pub eq_stripped :
    (p k j : Bytes) → has_prefix p k ≡ true → bytes_eq (stripped p k) j ≡ bytes_eq k (p ++ j)
unfolding has_prefix stripped bytes_eq
eq_stripped [] k j h = refl
eq_stripped (b ∷ p) [] j h = cc
eq_stripped (b ∷ p) (x ∷ k) j h = ground (arith, h, eq_stripped p k j)

pub lt_stripped :
    (p a b : Bytes)
    → has_prefix p a ≡ true
    → has_prefix p b ≡ true
    → bytes_lt (stripped p a) (stripped p b) ≡ bytes_lt a b
unfolding has_prefix stripped bytes_lt
lt_stripped [] a b g h = refl
lt_stripped (c ∷ p) [] b g h = cc
lt_stripped (c ∷ p) (x ∷ a) [] g h = cc
lt_stripped (c ∷ p) (x ∷ a) (y ∷ b) g h = ground (arith, g, h, lt_stripped p a b)

-- The bounds of the range, with the prefix in front.
lt_append : (p i j : Bytes) → bytes_lt (p ++ i) (p ++ j) ≡ bytes_lt i j
unfolding bytes_lt
lt_append [] i j = refl
lt_append (b ∷ p) i j = ground (arith, lt_append p i j)

not_below : (p j : Bytes) → bytes_lt (p ++ j) p ≡ false
unfolding bytes_lt
not_below [] [] = refl
not_below [] (x ∷ j) = refl
not_below (b ∷ p) j = ground (arith, not_below p j)

prefix_append : (p j : Bytes) → has_prefix p (p ++ j) ≡ true
unfolding has_prefix
prefix_append [] j = refl
prefix_append (b ∷ p) j = ground (arith, prefix_append p j)

below_longer : (k p s : Bytes) → bytes_lt k p ≡ true → bytes_lt k (p ++ s) ≡ true
unfolding bytes_lt
below_longer [] [] s h = cc
below_longer [] (b ∷ p) s h = refl
below_longer (x ∷ k) [] s h = cc
below_longer (x ∷ k) (b ∷ p) s h = ground (arith, h, below_longer k p s)

between :
    (p k e : Bytes) → bytes_lt k p ≡ false → bytes_lt k (p ++ e) ≡ true → has_prefix p k ≡ true
unfolding bytes_lt has_prefix
between [] k e g h = refl
between (b ∷ p) [] e g h = cc
between (b ∷ p) (x ∷ k) e g h = ground (arith, g, h, between p k e)

module _ (ps : PrefixStore) where
  pub starts :
      (start : Option Bytes) (j : Bytes)
      → from_start (prefixed_start ps start) (prefix_key ps j) ≡ from_start start j
  starts none j = ap not (not_below ps.prefix j)
  starts (some s) j = ap not (lt_append ps.prefix j s)

  pub ends :
      (end : Option Bytes) (j : Bytes)
      → IsBytes (prefix_key ps j)
      → before_end (prefixed_end ps end) (prefix_key ps j) ≡ before_end end j
  ends none j h =
      ground (arith, prefix_bound_lem ps.prefix (prefix_key ps j) h, prefix_append ps.prefix j)
  ends (some e) j h = lt_append ps.prefix j e

  not_before :
      (start : Option Bytes) (k : Bytes)
      → from_start (prefixed_start ps start) k ≡ true
      → bytes_lt k ps.prefix ≡ false
  not_before none k h = ground (arith, h)
  not_before (some s) k h = ground (arith, h, below_longer k ps.prefix s)

  -- The keys of bytes that lie in the range have the prefix.
  pub in_range-prefixed :
      (start end : Option Bytes) (k : Bytes)
      → IsBytes k
      → in_range (prefixed_start ps start) (prefixed_end ps end) k ≡ true
      → has_prefix ps.prefix k ≡ true
  in_range-prefixed start none k b h =
      ground (arith, prefix_bound_lem ps.prefix k b, not_before start k, h)
  in_range-prefixed start (some e) k b h =
      between ps.prefix k e (not_before start k (ground (arith, h))) (ground (arith, h))
