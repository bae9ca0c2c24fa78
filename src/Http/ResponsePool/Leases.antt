-- ===== src/Http/ResponsePool/Leases.antt =====
-- Which items are handed out.
use mathlib.Core.Path.{fun_ext}
use miniweb.Prelude.{
  ℕ, ◌%◌, subst, ◌<◌, ◌≡◌, refl, Bool, true, false, Option, none, some, List, [], ◌∷◌, ◌==◌,
  if◌then◌else◌, store, arith, ◌⊎◌, inl, inr, Bool-cases,
}
use miniweb.Http.ResponsePool.{
  PoolShard, Pools, zeroed, Handle, shard_count, shard_size, response_pool_shard_index,
  http_response_pool_acquire, http_response_pool_release,
}
use miniweb.Http.ResponsePool.Shard.{
  Holds, init-Fits, take_item-cases, release-out, given-Holds, taken-free,
}

-- Which items of each shard are out.
abbrev pub Leased : Type 0
Leased = ℕ → ℕ → Bool

-- What the callers do: a response is released only by a caller that holds it.
pub data Op : Type 0 where
  acquires : ℕ → Op
  releases : Handle → Op

pub record Trace : Type 0 where
  pub pools : Pools
  pub out : Leased

abbrev start : Trace
start = record { pools = zeroed; out = λ shard i. false }

lease : Trace → ℕ → Option ℕ × Pools → Trace
lease t shard (none, pools) = record t { pools = pools }
lease t shard (some i, pools) = record {
  pools = pools;
  out = store t.out shard (store (t.out shard) i true);
}

pub step : Trace → Op → Trace
step t (acquires thread_hash) =
    let shard = response_pool_shard_index thread_hash in
    lease t shard (http_response_pool_acquire shard t.pools)
step t (releases h) =
    if t.out h.shard h.item
    then record {
      pools = (http_response_pool_release (some h) t.pools).1;
      out = store t.out h.shard (store (t.out h.shard) h.item false);
    }
    else t

-- The operations, the last one first.
pub run : List Op → Trace
run [] = start
run (o ∷ os) = step (run os) o

pub record AllHold (t : Trace) : Type 0 where
  pub holds : (shard : ℕ) → Holds shard (t.pools shard) (t.out shard)
  pub small : (shard i : ℕ) → t.out shard i ≡ true → shard < shard_count

module _ (f : ℕ → PoolShard) (out : Leased) (shard : ℕ) (s : PoolShard)
    (v : (k : ℕ) → Holds k (f k) (out k)) where
  Holds-store :
      (o : ℕ → Bool) → Holds shard s o → (k : ℕ) → Holds k (store f shard s k) (store out shard o k)
  Holds-store o h k = elim (Bool-cases (shard == k)) [
    | inl e ↦ rw e (subst (λ z. Holds z s o) (ground (arith, e)) h)
    | inr e ↦ rw e (v k)
  ]

  Holds-store_pool : Holds shard s (out shard) → (k : ℕ) → Holds k (store f shard s k) (out k)
  Holds-store_pool h k = elim (Bool-cases (shard == k)) [
    | inl e ↦ rw e (subst (λ z. Holds z s (out z)) (ground (arith, e)) h)
    | inr e ↦ rw e (v k)
  ]

acquired :
    (t : Trace) (shard : ℕ) (o : Option ℕ) (s : PoolShard)
    → AllHold t
    → shard < shard_count
    → ((i : ℕ) × (o ≡ some i)
        × (t.out shard i ≡ false)
        × (i < shard_size)
        × Holds shard s (store (t.out shard) i true))
      ⊎ ((o ≡ none) × Holds shard s (t.out shard))
    → AllHold (lease t shard (o, store t.pools shard s))
unfolding lease
acquired t shard o s v in_range (inl (i, e, unused, small, h)) = rw e (record {
  holds = Holds-store t.pools t.out shard s v.holds (store (t.out shard) i true) h;
  small = λ k j l. ground (arith, v.small k j);
})
acquired t shard o s v in_range (inr (e, h)) =
    rw e (record { holds = Holds-store_pool t.pools t.out shard s v.holds h; small = v.small })

step-AllHold : (t : Trace) (o : Op) → AllHold t → AllHold (step t o)
unfolding step http_response_pool_acquire response_pool_shard_index
step-AllHold t (acquires hash) v =
    let shard = hash % shard_count in
    let in_range : shard < shard_count = omega arith in
    let (fits, on) = init-Fits shard (t.pools shard) (t.out shard) (v.holds shard) in
    acquired t shard _ _ v in_range (take_item-cases shard _ (t.out shard) fits on)
step-AllHold t (releases h) v = elim (Bool-cases (t.out h.shard h.item)) [
  | inr kept ↦ rw kept v
  | inl lent ↦
      rw
        (
          lent,
          release-out h t.pools (t.out h.shard) (v.small h.shard h.item lent) (v.holds h.shard)
              lent,
        )
        (record {
          holds =
              Holds-store t.pools t.out h.shard _ v.holds _ (
                given-Holds h.shard (t.pools h.shard) (t.out h.shard) h.item (v.holds h.shard)
                  lent);
          small = λ k j l. ground (arith, v.small k j);
        })
]

pub run-AllHold : (os : List Op) → AllHold (run os)
unfolding run
run-AllHold [] = record { holds = λ k. inl (refl, λ i. refl); small = λ k i e. cc }
run-AllHold (o ∷ os) = step-AllHold (run os) o (run-AllHold os)

-- After any history an item that is handed out is in range and no other caller holds it, and a release
-- of an item by its holder is accepted.
pub leases_exclusive :
    (os : List Op)
    → let t = run os in
      ((hash i : ℕ)
        → (http_response_pool_acquire (response_pool_shard_index hash) t.pools).0 ≡ some i
        → (t.out (response_pool_shard_index hash) i ≡ false) × (i < shard_size))
      × ((h : Handle)
          → t.out h.shard h.item ≡ true
          → (http_response_pool_release (some h) t.pools).0 ≡ true)
unfolding http_response_pool_acquire
leases_exclusive os =
    let v = run-AllHold os in
    (
      λ hash i e.
          taken-free (response_pool_shard_index hash) _ _ i
            (init-Fits _ _ _ (v.holds (response_pool_shard_index hash))).0 e,
      λ h lent.
          rw
            (release-out h (run os).pools ((run os).out h.shard) (v.small h.shard h.item lent)
              (v.holds h.shard) lent)
            refl,
    )

store-back :
    (out : Leased) (shard i : ℕ)
    → out shard i ≡ false
    → let lent = store out shard (store (out shard) i true) in
      store lent shard (store (lent shard) i false) ≡ out
store-back out shard i free = fun_ext λ k. fun_ext λ j. ground (arith, free)

released :
    (t : Trace) (h : Handle)
    → t.out h.shard h.item ≡ true
    → AllHold (step t (releases h))
    → AllHold (record {
      pools = (http_response_pool_release (some h) t.pools).1;
      out = store t.out h.shard (store (t.out h.shard) h.item false);
    })
unfolding step
released t h lent v = rw lent at v

-- What an acquire and the release by its caller leave: everything is lent that was, and no more.
pub acquire_release-AllHold :
    (t : Trace) (hash i : ℕ)
    → AllHold t
    → let shard = response_pool_shard_index hash in
      let taken = http_response_pool_acquire shard t.pools in
      taken.0 ≡ some i
      → AllHold (record t {
        pools = (http_response_pool_release (some (record { shard = shard; item = i })) taken.1).1;
      })
unfolding step lease http_response_pool_acquire
acquire_release-AllHold t hash i v e =
    let shard = response_pool_shard_index hash in
    let taken = http_response_pool_acquire shard t.pools in
    let h : Handle = record { shard = shard; item = i } in
    let free = (taken-free shard _ _ i (init-Fits _ _ _ (v.holds shard)).0 e).0 in
    let lent : Leased = store t.out shard (store (t.out shard) i true) in
    let t' : Trace = record { pools = taken.1; out = lent } in
    let v' : AllHold t' =
      subst (λ o. AllHold (lease t shard (o, taken.1))) e (step-AllHold t (acquires hash) v) in
    let is_out : lent shard i ≡ true = ground arith in
    subst
      (λ o. AllHold (record { pools = (http_response_pool_release (some h) taken.1).1; out = o }))
      (store-back t.out shard i free) (released t' h is_out (step-AllHold t' (releases h) v'))

pub acquire_none-AllHold :
    (t : Trace) (hash : ℕ)
    → AllHold t
    → let taken = http_response_pool_acquire (response_pool_shard_index hash) t.pools in
      taken.0 ≡ none → AllHold (record t { pools = taken.1 })
unfolding step lease
acquire_none-AllHold t hash v e =
    let shard = response_pool_shard_index hash in
    let taken = http_response_pool_acquire shard t.pools in
    subst (λ o. AllHold (lease t shard (o, taken.1))) e (step-AllHold t (acquires hash) v)
