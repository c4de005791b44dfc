-- ===== src/Store/Prefix.antt =====
-- store/prefix.go: the store of the keys with a prefix, over the memory store. A nil slice is `none`;
-- a closed parent iterator is closed through its wrapper only.
pub mod Bound
pub mod Isolated
pub mod Keys
pub mod Walk
use punnet_sdk.Base.{
  ℕ, zero, suc, ◌+◌, Bool, true, false, not, ◌&&◌, ◌==◌, List, [], ◌∷◌, ◌++◌, Option, none, some,
  Outcome, ok, err, length, ltb, if◌then◌else◌, fail_if, ◌>>=◌, ◌>>◌, store_closed, panic,
}
use punnet_sdk.Base.Bytes.{Bytes}
use punnet_sdk.Store.Memory
use punnet_sdk.Store.Memory.{
  Memory, MemoryIterator, validate_key, iterator, close_iterator, iterator_key, iterator_value,
}

pub record PrefixStore : Type 0 where
  pub parent : Memory
  pub prefix : Bytes
  pub closed : Bool

unfoldable pub new_prefix_store : Memory → Bytes → Outcome PrefixStore
new_prefix_store parent prefix = do
  fail_if (length prefix == 0) panic
  ok (record { parent = parent; prefix = prefix; closed = false })

abbrev pub prefix_key : PrefixStore → Bytes → Bytes
prefix_key ps k = ps.prefix ++ k

-- The checks that every call makes first.
unfoldable pub checks : PrefixStore → Bytes → Outcome (Unit {0})
checks ps k = do fail_if ps.closed store_closed; validate_key k

unfoldable pub get : PrefixStore → Bytes → Outcome Bytes
unfolding checks
get ps k = do checks ps k; Memory.get ps.parent (prefix_key ps k)

-- A write goes to the parent when the checks pass.
abbrev pub written : PrefixStore → Outcome (Unit {0}) × Memory → Outcome (Unit {0}) × PrefixStore
written ps (r, m) = (r, record ps { parent = m })

abbrev pub guarded :
    PrefixStore
    → Outcome (Unit {0})
    → Outcome (Unit {0}) × Memory
    → Outcome (Unit {0}) × PrefixStore
guarded ps (ok _) w = written ps w
guarded ps (err e) w = (err e, ps)

unfoldable pub set : PrefixStore → Bytes → Bytes → Outcome (Unit {0}) × PrefixStore
unfolding checks
set ps k v = guarded ps (checks ps k) (Memory.set ps.parent (prefix_key ps k) v)

unfoldable pub delete : PrefixStore → Bytes → Outcome (Unit {0}) × PrefixStore
unfolding checks
delete ps k = guarded ps (checks ps k) (Memory.delete ps.parent (prefix_key ps k))

unfoldable pub has : PrefixStore → Bytes → Outcome Bool
unfolding checks
has ps k = do checks ps k; Memory.has ps.parent (prefix_key ps k)

-- `prefixBound`: the loop finds the last byte below 255 from the end; here the rest of the slice is
-- asked first, and `none` says that all its bytes are 255.
abbrev pub bound_at : ℕ → Option Bytes → Option Bytes
bound_at b (some rest) = some (b ∷ rest)
bound_at b none = if ltb b 255 then some ((b + 1) ∷ []) else none

unfoldable pub prefix_bound : Bytes → Option Bytes
prefix_bound [] = none
prefix_bound (b ∷ bs) = bound_at b (prefix_bound bs)

-- `bytes.HasPrefix`
unfoldable pub has_prefix : Bytes → Bytes → Bool
has_prefix [] k = true
has_prefix (b ∷ bs) [] = false
has_prefix (b ∷ bs) (x ∷ xs) = b == x && has_prefix bs xs

abbrev pub prefixed_start : PrefixStore → Option Bytes → Option Bytes
prefixed_start ps none = some ps.prefix
prefixed_start ps (some start) = some (prefix_key ps start)

abbrev pub prefixed_end : PrefixStore → Option Bytes → Option Bytes
prefixed_end ps none = prefix_bound ps.prefix
prefixed_end ps (some end) = some (prefix_key ps end)

pub record PrefixIterator : Type 0 where
  pub parent : MemoryIterator
  pub prefix : Bytes
  pub closed : Bool

-- `Iterator`, and `ReverseIterator` for `reverse`.
unfoldable pub prefix_iterator :
    PrefixStore → Option Bytes → Option Bytes → Bool → Outcome PrefixIterator
unfolding prefix_bound
prefix_iterator ps start end reverse = do
  fail_if ps.closed store_closed
  ok (record {
    parent = iterator ps.parent (prefixed_start ps start) (prefixed_end ps end) reverse;
    prefix = ps.prefix;
    closed = false;
  })

unfoldable pub close : PrefixStore → Outcome (Unit {0}) × PrefixStore
close ps = (ok tt, record ps { closed = true })

abbrev pub key_has : Bytes → Option Bytes → Bool
key_has prefix none = has_prefix prefix []
key_has prefix (some k) = has_prefix prefix k

unfoldable pub valid : PrefixIterator → Bool
unfolding has_prefix
valid it =
    if it.closed
    then false
    else if not (Memory.valid it.parent)
    then false
    else key_has it.prefix (iterator_key it.parent)

unfoldable pub next : PrefixIterator → PrefixIterator
next it = if it.closed then it else record it { parent = Memory.next it.parent }

-- `key[len(prefix):]`
unfoldable pub stripped : Bytes → Bytes → Bytes
stripped [] k = k
stripped (b ∷ bs) [] = []
stripped (b ∷ bs) (x ∷ xs) = stripped bs xs

abbrev pub strip_found : Bytes → Option Bytes → Option Bytes
strip_found prefix none = none
strip_found prefix (some k) = if has_prefix prefix k then some (stripped prefix k) else none

unfoldable pub key : PrefixIterator → Option Bytes
unfolding has_prefix stripped
key it =
    if it.closed
    then none
    else if not (Memory.valid it.parent)
    then none
    else strip_found it.prefix (iterator_key it.parent)

unfoldable pub value : PrefixIterator → Option Bytes
value it = if it.closed then none else iterator_value it.parent

unfoldable pub close_prefix_iterator : PrefixIterator → PrefixIterator
close_prefix_iterator it =
    if it.closed then it else record it { closed = true; parent = close_iterator it.parent }
