-- ===== src/Lru.antt =====
-- pkg/util/lru/lru.go: a least-recently-used cache bounded by the total size of its values.
pub mod Size
use mathlib.Core.Option
use ch_vmm.Prelude.{
  ℕ, zero, suc, ◌+◌, ◌-◌, ◌^◌, String, Bool, true, false, ◌&&◌, ◌||◌, not, List, [], ◌∷◌, ◌++◌,
  Option, none, some, if◌then◌else◌, ltb, ◌==◌, length, get_or, set, take,
}
use ch_vmm.Prelude.Int64.{add64, sub64, lt64}

pub data EvictionReason : Type 0 where
  size manual conflict : EvictionReason

-- `Config`: whether a callback is given, and the maximum, an `int64`.
pub record Config : Type 0 where
  pub has_size_fn : Bool
  pub has_on_evict : Bool
  pub config_max_size : ℕ
  pub config_update_in_place : Bool

pub record Entry {ℓ} (V : Type ℓ) : Type ℓ where
  pub key : ℕ
  pub conflict_key : ℕ
  pub value : V

-- An element of `evictList`: its address and the entry that it points to.
abbrev pub Element {ℓ} : Type ℓ → Type ℓ
Element V = ℕ × Entry V

-- `evict_list` is front first. `items` maps a key to addresses; a missing key and one without
-- addresses read alike, and no key is kept without addresses. `calls` are the calls of the callback,
-- the newest first, and `next` is an address that is not in use. Sizes are `int64`.
pub record Lru {ℓ} (V : Type ℓ) : Type ℓ where
  pub evict_list : List (Element V)
  pub items : List (ℕ × List ℕ)
  pub has_on_evict : Bool
  pub calls : List (V × EvictionReason)
  pub max_size : ℕ
  pub current_size : ℕ
  pub update_in_place : Bool
  pub next : ℕ

-- `c.items[key]`, the assignment to it, and `delete(c.items, key)`.
pub bucket : ℕ → List (ℕ × List ℕ) → List ℕ
bucket k [] = []
bucket k ((j, ps) ∷ m) = if j == k then ps else bucket k m

pub set_bucket : ℕ → List ℕ → List (ℕ × List ℕ) → List (ℕ × List ℕ)
set_bucket k ps [] = (k, ps) ∷ []
set_bucket k ps ((j, qs) ∷ m) = if j == k then (k, ps) ∷ m else (j, qs) ∷ set_bucket k ps m

pub delete_bucket : ℕ → List (ℕ × List ℕ) → List (ℕ × List ℕ)
delete_bucket k [] = []
delete_bucket k ((j, qs) ∷ m) =
    let rest = delete_bucket k m in if j == k then rest else (j, qs) ∷ rest

-- `entries[i] = entries[len-1]; entries[:len-1]`
pub swap_remove : ℕ → List ℕ → List ℕ
swap_remove i ps = take (length ps - 1) (set ps i (get_or ps (length ps - 1) 0))

-- The index of the first address whose entry has the conflict key. The entry of an address is read
-- in the list `es`, which holds the entries that are or were just in the cache.
module _ {ℓ} {V : Type ℓ} where
  pub entry_at : ℕ → List (Element V) → Option (Entry V)
  entry_at p [] = none
  entry_at p ((q, e) ∷ es) = if q == p then some e else entry_at p es

  pub has_conflict_key : ℕ → Option (Entry V) → Bool
  has_conflict_key ck none = false
  has_conflict_key ck (some e) = e.conflict_key == ck

  pub scan : ℕ → List (Element V) → List ℕ → Option ℕ
  unfolding has_conflict_key entry_at
  scan ck es [] = none
  scan ck es (p ∷ ps) = if has_conflict_key ck (entry_at p es) then some p else scan ck es ps

  -- `lookupItem`: the address of the element.
  pub lookup_item : Lru V → ℕ → ℕ → Option ℕ
  unfolding scan bucket
  lookup_item c key conflict_key = scan conflict_key c.evict_list (bucket key c.items)

  -- `list.Remove` and `list.MoveToFront` of the standard library.
  pub remove_at : ℕ → List (Element V) → List (Element V)
  remove_at p [] = []
  remove_at p ((q, e) ∷ es) = if q == p then es else (q, e) ∷ remove_at p es

  pub move_to_front : ℕ → List (Element V) → List (Element V)
  unfolding entry_at remove_at
  move_to_front p es = elim (entry_at p es) [ none ↦ es | some e ↦ (p, e) ∷ remove_at p es ]

  -- `ent.Value.(*Entry[V]).value = value`
  pub write_value : ℕ → V → List (Element V) → List (Element V)
  write_value p v [] = []
  write_value p v ((q, e) ∷ es) =
      if q == p then (q, record e { value = v }) ∷ es else (q, e) ∷ write_value p v es

  index_of : ℕ → List (Element V) → ℕ → List ℕ → Option ℕ
  index_of ck es i [] = none
  index_of ck es i (p ∷ ps) =
      if has_conflict_key ck (entry_at p es) then some i else index_of ck es (suc i) ps

  -- `removeItem`
  pub remove_item : List (Element V) → ℕ → ℕ → List (ℕ × List ℕ) → List (ℕ × List ℕ)
  unfolding index_of swap_remove
  remove_item es key conflict_key items =
      let entries = bucket key items in
      elim (index_of conflict_key es 0 entries) [
        | none ↦ items
        | some i ↦
            if length entries == 1
            then delete_bucket key items
            else set_bucket key (swap_remove i entries) items
      ]

  -- `if c.onEvict != nil { c.onEvict(v, reason) }`
  pub on_evict : V → EvictionReason → Lru V → Lru V
  on_evict v reason c = if c.has_on_evict then record c { calls = (v, reason) ∷ c.calls } else c

  -- `addItem`
  pub add_item : ℕ → ℕ → V → ℕ → Bool → Lru V → Lru V
  unfolding add64
  add_item key conflict_key value sz front c =
      let element : Element V =
        (c.next, record { key = key; conflict_key = conflict_key; value = value }) in
      record c {
        evict_list = if front then element ∷ c.evict_list else c.evict_list ++ element ∷ [];
        items = set_bucket key (bucket key c.items ++ c.next ∷ []) c.items;
        current_size = add64 c.current_size sz;
        next = suc c.next;
      }

  -- The last element, if there is one.
  pub back : List (Element V) → Option (Element V)
  back [] = none
  back (x ∷ []) = some x
  back (x ∷ y ∷ es) = back (y ∷ es)

  -- `NewLRU`; without a positive maximum or without a size function it is an error.
  pub new_lru : Config → Option (Lru V)
  unfolding lt64
  new_lru config =
      if not (lt64 0 config.config_max_size)
      then none
      else if not config.has_size_fn
      then none
      else some (record {
        evict_list = [];
        items = [];
        has_on_evict = config.has_on_evict;
        calls = [];
        max_size = config.config_max_size;
        current_size = 0;
        update_in_place = config.config_update_in_place;
        next = 0;
      })

-- The cache over the values' sizes and the two hashes, `MemHashString` and `xxhash.Sum64String`.
module _ {ℓ} {V : Type ℓ} (size_fn : V → ℕ) where
  -- `removeElement`
  pub remove_element : Element V → EvictionReason → Lru V → Lru V
  unfolding remove_at remove_item on_evict sub64
  remove_element (p, e) reason c = on_evict e.value reason (record c {
    evict_list = remove_at p c.evict_list;
    items = remove_item c.evict_list e.key e.conflict_key c.items;
    current_size = sub64 c.current_size (size_fn e.value);
  })

  -- `removeOldest`
  pub remove_oldest : Lru V → Lru V
  unfolding back
  remove_oldest c = elim (back c.evict_list) [
    | none ↦ c
    | some x ↦ remove_element x EvictionReason.size c
  ]

  -- `for c.currentSize > c.maxSize { c.removeOldest() }`, on fuel.
  pub trim : ℕ → Lru V → Lru V
  unfolding lt64
  trim zero c = c
  trim (suc fuel) c =
      let rest = trim fuel (remove_oldest c) in if lt64 c.max_size c.current_size then rest else c

  -- `Add` behind the hashes, before its loop.
  pub place : ℕ → ℕ → V → Lru V → Lru V
  unfolding move_to_front write_value
  place pk ck value c = elim (lookup_item c pk ck) [
    | none ↦ add_item pk ck value (size_fn value) true c
    | some p ↦ elim (entry_at p c.evict_list) [
      | none ↦ c
      | some e ↦
          if c.update_in_place
          then record c {
            current_size = add64 c.current_size (sub64 (size_fn value) (size_fn e.value));
            evict_list = write_value p value (move_to_front p c.evict_list);
          }
          else add_item pk ck value (size_fn value) true
              (remove_element (p, e) EvictionReason.conflict c)
    ]
  ]

  -- `Add`: the loop ends within one round for each element.
  pub add : ℕ → ℕ → V → Lru V → Lru V × Bool
  unfolding place trim
  add pk ck value c =
      let placed = place pk ck value c in (trim (suc (length placed.evict_list)) placed, true)

  -- `PushBack`
  pub push_back : ℕ → ℕ → V → Lru V → Lru V × Bool
  unfolding lt64 add64 sub64
  push_back pk ck value c =
      let sz = size_fn value in
      let insert = λ (c : Lru V).
        if lt64 c.max_size (add64 c.current_size sz)
        then (c, false)
        else (add_item pk ck value sz false c, true) in
      elim (lookup_item c pk ck) [
        | none ↦ insert c
        | some p ↦ elim (entry_at p c.evict_list) [
          | none ↦ (c, false)
          | some e ↦
              let delta = sub64 sz (size_fn e.value) in
              if lt64 c.max_size (add64 c.current_size delta)
              then (c, false)
              else if c.update_in_place
              then (
                record c {
                  evict_list = write_value p value c.evict_list;
                  current_size = add64 c.current_size delta;
                },
                true,
              )
              else insert (remove_element (p, e) EvictionReason.conflict c)
        ]
      ]

  -- `Remove`
  pub remove : ℕ → ℕ → Lru V → Lru V × Bool
  remove pk ck c = elim (lookup_item c pk ck) [
    | none ↦ (c, false)
    | some p ↦ elim (entry_at p c.evict_list) [
      | none ↦ (c, false)
      | some e ↦ (remove_element (p, e) EvictionReason.manual c, true)
    ]
  ]

  -- `RemoveOldest`
  pub remove_oldest_entry : Lru V → Lru V × Option V
  remove_oldest_entry c = elim (back c.evict_list) [
    | none ↦ (c, none)
    | some (p, e) ↦ (remove_element (p, e) EvictionReason.size c, some e.value)
  ]

module _ {ℓ} {V : Type ℓ} where
  -- `Get` and `Contains`; an entry is never nil.
  pub get : ℕ → ℕ → Lru V → Lru V × Option V
  get pk ck c = elim (lookup_item c pk ck) [
    | none ↦ (c, none)
    | some p ↦ (
      record c { evict_list = move_to_front p c.evict_list },
      Option.map (λ (e : Entry V). e.value) (entry_at p c.evict_list),
    )
  ]

  pub contains : ℕ → ℕ → Lru V → Lru V × Bool
  contains pk ck c = elim (lookup_item c pk ck) [
    | none ↦ (c, false)
    | some p ↦ (record c { evict_list = move_to_front p c.evict_list }, true)
  ]

  -- `Peek`
  pub peek : ℕ → ℕ → Lru V → Option V
  peek pk ck c = elim (lookup_item c pk ck) [
    | none ↦ none
    | some p ↦ Option.map (λ (e : Entry V). e.value) (entry_at p c.evict_list)
  ]

  -- `Purge`: the callback for each entry, in the order of the map, which Go leaves open; the list
  -- and the map are emptied.
  pub purge_bucket : List (Element V) → List ℕ → Lru V → Lru V
  purge_bucket es [] c = c
  purge_bucket es (p ∷ ps) c = elim (entry_at p es) [
    | none ↦ purge_bucket es ps c
    | some e ↦ purge_bucket es ps (on_evict e.value EvictionReason.size c)
  ]

  pub purge_items : List (Element V) → List (ℕ × List ℕ) → Lru V → Lru V
  unfolding purge_bucket on_evict
  purge_items es [] c = c
  purge_items es ((k, ps) ∷ m) c = purge_items es m (purge_bucket es ps c)

  pub purge : Lru V → Lru V
  unfolding purge_items
  purge c = record (purge_items c.evict_list c.items c) { items = []; evict_list = [] }

  pub len : Lru V → ℕ
  len c = length c.evict_list
