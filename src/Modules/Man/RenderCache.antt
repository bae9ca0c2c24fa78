-- ===== src/Modules/Man/RenderCache.antt =====
-- src/modules/man/man_render.c: the cache of the rendered pages. A call is one step on its shard, since
-- its body holds the shard's lock. The times and the answers of `malloc` are arguments.
pub mod Recent
use miniweb.Prelude.{
  ℕ, zero, suc, ◌+◌, ◌-◌, ◌%◌, Bool, true, false, not, ◌&&◌, Option, none, some, List, [], ◌∷◌,
  ◌++◌, Bytes, codes, str_eq, ◌==◌, ltb, take, map, if◌then◌else◌, store, is_some,
}
use miniweb.Http.FileCache.{repeat}
use miniweb.Http.FileCache.Calls.{hash_from}

-- MAN_RENDER_CACHE_SHARDS, MAN_RENDER_CACHE_SLOTS, MAN_RENDER_CACHE_TTL and the size of a key.
abbrev pub man_shards : ℕ
man_shards = 8

abbrev pub man_slots : ℕ
man_slots = 64

abbrev pub man_ttl : ℕ
man_ttl = 600

abbrev pub key_size : ℕ
key_size = 192

-- `none` is a NULL body; `len` is the length of the body.
pub record RenderSlot : Type 0 where
  pub key : Bytes
  pub body : Option Bytes
  pub inserted : ℕ

abbrev pub empty_slot : RenderSlot
empty_slot = record { key = []; body = none; inserted = 0 }

-- The shards, by their index.
abbrev pub RenderCache : Type 0
RenderCache = ℕ → List RenderSlot

-- `g_man_cache`, zeroed.
unfoldable pub man_cache : RenderCache
man_cache i = repeat man_slots empty_slot

pub record Page : Type 0 where
  pub area : Bytes
  pub section : Bytes
  pub page : Bytes
  pub format : Bytes

unfoldable pub man_render_cache_key : Page → Bytes
man_render_cache_key p =
    take (key_size - 1)
      (p.area ++ (codes "/" ++ (p.section ++ (codes "/" ++ (p.page ++ (codes "." ++ p.format))))))

unfoldable pub man_render_cache_shard : Bytes → ℕ
man_render_cache_shard key = hash_from 14695981039346656037 key % man_shards

unfoldable pub holds_key : Bytes → RenderSlot → Bool
holds_key key s = is_some s.body && str_eq s.key key

-- The loop of a lookup.
unfoldable pub get_slots : Bytes → Bool → ℕ → List RenderSlot → Option Bytes × List RenderSlot
get_slots key has_memory now [] = (none, [])
get_slots key has_memory now (s ∷ ss) =
    let (found, ss') = get_slots key has_memory now ss in
    if not (holds_key key s)
    then (found, s ∷ ss')
    else if ltb man_ttl (now - s.inserted)
    then (none, record s { body = none } ∷ ss)
    else (if has_memory then s.body else none, s ∷ ss)

unfoldable pub man_render_cache_get : Page → Bool → ℕ → RenderCache → Option Bytes × RenderCache
man_render_cache_get p has_memory now cache =
    let key = man_render_cache_key p in
    let si = man_render_cache_shard key in
    let (found, ss) = get_slots key has_memory now (cache si) in (found, store cache si ss)

-- The slot that the loop of `man_render_cache_put` ends at: that of the key, or the first that is free,
-- or the oldest, if there is one older than `oldest`. `i` counts the slots that it has passed.
unfoldable pub put_target : Bytes → ℕ → ℕ → Option ℕ → List RenderSlot → Option ℕ
put_target key i oldest target [] = target
put_target key i oldest target (s ∷ ss) =
    let older = put_target key (i + 1) s.inserted (some i) ss in
    let other = put_target key (i + 1) oldest target ss in
    if holds_key key s
    then some i
    else if not (is_some s.body)
    then some i
    else if ltb s.inserted oldest
    then older
    else other

-- The old body is freed, whether there is memory for the new one or not. The key is written again
-- where it is there already.
unfoldable pub put_slot : Bytes → Bytes → Bool → ℕ → RenderSlot → RenderSlot
put_slot key body has_memory now s =
    if has_memory
    then record { key = key; body = some body; inserted = now }
    else record s { body = none }

unfoldable pub put_at_slot : ℕ → (RenderSlot → RenderSlot) → List RenderSlot → List RenderSlot
put_at_slot i f [] = []
put_at_slot zero f (s ∷ ss) = f s ∷ ss
put_at_slot (suc i) f (s ∷ ss) = s ∷ put_at_slot i f ss

abbrev pub put_target_slot :
    Option ℕ → (RenderSlot → RenderSlot) → List RenderSlot → List RenderSlot
put_target_slot none f ss = ss
put_target_slot (some i) f ss = put_at_slot i f ss

-- `body` is the `len` bytes at `body`; a NULL, which the callers never pass, is left out.
unfoldable pub man_render_cache_put : Page → Bytes → Bool → ℕ → RenderCache → RenderCache
man_render_cache_put p [] has_memory now cache = cache
man_render_cache_put p (c ∷ body) has_memory now cache =
    let key = man_render_cache_key p in
    let si = man_render_cache_shard key in
    store cache si (
      put_target_slot (put_target key 0 (now + 1) none (cache si))
        (put_slot key (c ∷ body) has_memory now) (cache si))

abbrev pub emptied_slot : RenderSlot → RenderSlot
emptied_slot s = record s { key = []; body = none }

-- Before the first lookup all slots are empty, so that clearing them changes nothing.
unfoldable pub man_render_cache_cleanup : RenderCache → RenderCache
man_render_cache_cleanup cache i = if ltb i man_shards then map emptied_slot (cache i) else cache i
