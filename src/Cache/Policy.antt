-- ===== src/Cache/Policy.antt =====
-- How long a cached entity stays fresh: tui/internal/cache/policy.go. `now.Sub` saturates far above
-- every lifetime, so the differences are written as those of integers.
use stellarview_tui.Prelude.{
  ℕ, ◌+◌, ◌*◌, ◌≤◌, ◌<◌, ◌≡◌, String, Bool, true, false, not, ◌||◌, ◌==◌, str_eq, if◌then◌else◌,
  ◌⊎◌, inl, inr, ◌↔◌, leb, Bool-cases, arith,
}
use stellarview_tui.Prelude.Int.{pos, sub_ℕ, leb_ℤ, ltb_ℤ}
use stellarview_tui.Prelude.Text.{trim_space, to_lower}
use stellarview_tui.Cache.Rows.{EntityCache}

-- `time.Minute`, in nanoseconds
abbrev pub minute : ℕ
minute = 60000000000

ttl_of : String → ℕ
ttl_of kind =
    if str_eq kind "ledger" || str_eq kind "transaction" || str_eq kind "operation"
    then 0
    else if str_eq kind "account"
    then 5 * minute
    else if str_eq kind "asset" || str_eq kind "contract"
    then 10 * minute
    else 15 * minute

-- `EntityTTL`
unfoldable pub entity_ttl : String → ℕ
unfolding ttl_of
entity_ttl kind = ttl_of (to_lower (trim_space kind))

-- `EntityFresh`
unfoldable pub entity_fresh : EntityCache → ℕ → Bool
entity_fresh entity now =
    if entity.updated_at == 0
    then false
    else if entity_ttl entity.kind == 0
    then true
    else leb_ℤ (sub_ℕ now entity.updated_at) (pos (entity_ttl entity.kind))

-- `EntityStale`
unfoldable pub entity_stale : EntityCache → ℕ → Bool
entity_stale entity now =
    if entity.updated_at == 0
    then false
    else if entity_ttl entity.kind == 0
    then false
    else ltb_ℤ (pos (entity_ttl entity.kind)) (sub_ℕ now entity.updated_at)

-- An entity that was ever updated is either fresh or stale, never both, and one that was not is
-- neither.
pub entity_stale-not_fresh :
    (entity : EntityCache) (now : ℕ)
    → entity_stale entity now
      ≡ (if entity.updated_at == 0 then false else not (entity_fresh entity now))
unfolding entity_fresh entity_stale
entity_stale-not_fresh entity now = ground arith

-- Time only makes an entity stale: one that is fresh was fresh at every earlier time.
pub entity_fresh-earlier :
    (entity : EntityCache) (earlier now : ℕ)
    → earlier ≤ now
    → entity_fresh entity now ≡ true
    → entity_fresh entity earlier ≡ true
unfolding entity_fresh
entity_fresh-earlier entity earlier now h fresh = ground arith

-- The times at which the policy lets an entity of a kind, updated at a time, be fresh: all of them
-- if its lifetime is zero, and otherwise those until its lifetime is over.
abbrev pub IsWithin : String → ℕ → ℕ → Type 0
IsWithin kind updated_at now = (entity_ttl kind ≡ 0) ⊎ (now ≤ updated_at + entity_ttl kind)

IsWithin-fresh :
    (entity : EntityCache) (now : ℕ)
    → 0 < entity.updated_at
    → IsWithin entity.kind entity.updated_at now
    → entity_fresh entity now ≡ true
unfolding entity_fresh
IsWithin-fresh entity now h (inl forever) = ground arith
IsWithin-fresh entity now h (inr early) = ground arith

fresh-IsWithin :
    (entity : EntityCache) (now : ℕ)
    → 0 < entity.updated_at
    → entity_fresh entity now ≡ true
    → IsWithin entity.kind entity.updated_at now
unfolding entity_fresh
fresh-IsWithin entity now h k = elim (Bool-cases (leb (entity_ttl entity.kind) 0)) [
  | inl forever ↦ inl (ground arith)
  | inr limited ↦ inr (ground arith)
]

-- An entity that was ever updated is fresh exactly as long as its kind says.
pub entity_fresh_iff :
    (entity : EntityCache) (now : ℕ)
    → 0 < entity.updated_at
    → (entity_fresh entity now ≡ true) ↔ IsWithin entity.kind entity.updated_at now
entity_fresh_iff entity now h = (fresh-IsWithin entity now h, IsWithin-fresh entity now h)
