-- ===== src/Mem/Heap.antt =====
-- The claim heap of the in-memory backend, pkg/backend/eqmem/claimheap.go, with the parts of Go's
-- container/heap that it calls. Items are shared by the slice and the map, so they live in a store
-- by pointer; an item's queue, which nothing reads, is left out.
pub mod Sifts
pub mod Searches
pub mod Sound
pub mod Updates
pub mod Pushes
pub mod Removals
use entroq.Base.{
  ℤ, pos_part, neg_part, sub_ℕ, ◌+ℤ◌, ◌≤ℤ◌, ltb_ℤ, +ℤ_parts, eq_of_parts, int_laws, +ℤ_assoc,
  +ℤ-zero, zero-+ℤ, pos, negsuc, Time, Duration, add, after, before, is_zero, is_positive,
  is_zero_duration, int32_mod, inc32, IsInt32, is_positive32, inc32_moves, inc32-IsInt32, le32,
  Dict, lookup, insert, erase, contains, lookup-insert, lookup-erase, contains-insert, contains-nil,
  get_or, get_or-insert, map_values, lookup-map_values, AreNew, AreNew-cons, AreNew-nil, ltb, leb,
  if◌then◌else◌, ltb→lt, lt→ltb, le→not-ltb, Bool-cases, Option-cases, is_some, length, All,
  is_empty, any, keep, length-append, All-append, is_empty-keep, Distinct, everywhere, append-nil,
  append_assoc, is_empty_iff, All-iff, All-implied, All-both, keep-All, text_discrete, Eq,
  string_eq, nat_eq, ◌==◌, pair_discrete, runs, ℕ, zero, suc, ◌+◌, ◌-◌, ◌*◌, ◌/◌, ◌%◌, ◌^◌, ◌≤◌,
  ◌<◌, String, ◌<>◌, len, ◌≡◌, refl, sym, ap, ◌∙◌, ◌≢◌, ◌↔◌, ◌⊎◌, inl, inr, Bool, true, false, not,
  ◌&&◌, ◌||◌, Option, none, some, List, [], ◌∷◌, ◌++◌, map, arith,
}

-- claimItem; an `idx` of -1 is none.
pub record ClaimItem : Type 0 where
  pub id : String
  pub at : Time
  pub idx : Option ℕ

-- claimHeap: the slice `items` is its length and a pointer for each slot below it, `by_id` holds
-- pointers, `store` has the items by pointer, and `next` is a pointer that is not used yet.
pub record ClaimHeap : Type 0 where
  pub size : ℕ
  pub items : ℕ → ℕ
  pub by_id : Dict String ℕ
  pub store : ℕ → ClaimItem
  pub next : ℕ

abbrev pub put {ℓ} : {A : Type ℓ} → ℕ → A → (ℕ → A) → ℕ → A
put k v f i = if i == k then v else f i

-- newClaimHeap
abbrev pub new_claim_heap : ClaimHeap
new_claim_heap = record {
  size = 0;
  items = λ i. 0;
  by_id = [];
  store = λ p. record { id = ""; at = 0; idx = none };
  next = 0;
}

abbrev pub set_idx : ℕ → Option ℕ → (ℕ → ClaimItem) → ℕ → ClaimItem
set_idx p o store = put p (record (store p) { idx = o }) store

-- claimHeap.Less
abbrev pub less : ClaimHeap → ℕ → ℕ → Bool
less h i j = before (h.store (h.items i)).at (h.store (h.items j)).at

-- claimHeap.Swap
unfoldable pub swap : ℕ → ℕ → ClaimHeap → ClaimHeap
swap i j h = record h {
  items = put i (h.items j) (put j (h.items i) h.items);
  store = set_idx (h.items i) (some j) (set_idx (h.items j) (some i) h.store);
}

-- claimHeap.Push, of a new item
unfoldable pub push : String → Time → ClaimHeap → ClaimHeap
push id at h = record h {
  size = h.size + 1;
  items = put h.size h.next h.items;
  store = put h.next (record { id = id; at = at; idx = some h.size }) h.store;
  next = h.next + 1;
}

-- claimHeap.Pop
unfoldable pub pop : ClaimHeap → ClaimHeap
pop h = record h { size = h.size - 1; store = set_idx (h.items (h.size - 1)) none h.store }

-- `up` of container/heap, on fuel for its turns, of which there are at most `j`
unfoldable pub up_loop : ℕ → ℕ → ClaimHeap → ClaimHeap
up_loop zero j h = h
up_loop (suc k) j h =
    let parent = (j - 1) / 2 in
    let risen = up_loop k parent (swap parent j h) in
    if parent == j || not (less h j parent) then h else risen

abbrev pub up : ℕ → ClaimHeap → ClaimHeap
up j h = up_loop j j h

-- The child that `down` compares
abbrev pub smaller_child : ℕ → ℕ → ClaimHeap → ℕ
smaller_child n i h =
    if ltb (2 * i + 2) n && less h (2 * i + 2) (2 * i + 1) then 2 * i + 2 else 2 * i + 1

-- `down` of container/heap, on fuel for its turns, of which there are at most `n`, with the slot
-- that it ends at
unfoldable pub down_loop : ℕ → ℕ → ℕ → ClaimHeap → ClaimHeap × ℕ
down_loop zero n i h = (h, i)
down_loop (suc k) n i h =
    let j = smaller_child n i h in
    let sunk = down_loop k n j (swap i j h) in
    if leb n (2 * i + 1) || not (less h j i) then (h, i) else sunk

-- `if !down(h, i, n) { up(h, i) }`
unfoldable pub settle : ℕ → ℕ → ClaimHeap → ClaimHeap
settle n i h =
    let (h', i') = down_loop n n i h in let risen = up i h' in if ltb i i' then h' else risen

-- Remove of container/heap
unfoldable pub remove_slot : ℕ → ClaimHeap → ClaimHeap
remove_slot i h =
    let n = h.size - 1 in
    let settled = settle n i (swap i n h) in pop (if n == i then h else settled)

-- PushItem of newItem
unfoldable pub push_item : String → Time → ClaimHeap → ClaimHeap
push_item id at h =
    let pushed = up h.size (push id at h) in record pushed { by_id = insert id h.next pushed.by_id }

-- RemoveItem; an index of -1, which no item of `by_id` has, would panic.
unfoldable pub remove_item : ℕ → ClaimHeap → ClaimHeap
remove_item p h = elim (h.store p).idx [
  | none ↦ h
  | some i ↦
      let removed = remove_slot i h in record removed { by_id = erase (h.store p).id removed.by_id }
]

-- RemoveID
unfoldable pub remove_id : String → ClaimHeap → ClaimHeap
remove_id id h = elim (lookup id h.by_id) [ none ↦ h | some p ↦ remove_item p h ]

-- The write of UpdateItem, and FixItem
unfoldable pub set_at : ℕ → Time → ClaimHeap → ClaimHeap
set_at p at h = record h { store = put p (record (h.store p) { at = at }) h.store }

unfoldable pub update_item : ℕ → Time → ClaimHeap → ClaimHeap
update_item p at h = elim (h.store p).idx [ none ↦ h | some i ↦ settle h.size i (set_at p at h) ]

-- UpdateID
unfoldable pub update_id : String → Time → ClaimHeap → ClaimHeap
update_id id at h = elim (lookup id h.by_id) [ none ↦ h | some p ↦ update_item p at h ]

-- `rand.Float64() < threshold`, where each draw is whether it is below 0.33; the threshold is 1
-- while nothing is found.
abbrev pub draw : Bool → List Bool → Bool × List Bool
draw found [] = (not found, [])
draw found (d ∷ ds) = (not found || d, ds)

abbrev pub prefer : Option ℕ → Option ℕ → Option ℕ
prefer none item = item
prefer (some p) item = some p

-- One of the two draws of randAvail, and the search below that it asks for
unfoldable pub look :
    Bool → Option ℕ → (List Bool → Option ℕ × List Bool) → List Bool → Option ℕ × List Bool
look found item below ds =
    let (goes_on, ds') = draw found ds in
    let found_below = below ds' in
    if goes_on then (prefer found_below.0 item, found_below.1) else (item, ds')

-- The item of a slot, if it is available
unfoldable pub candidate : Time → ClaimHeap → ℕ → Option ℕ
candidate now h i = if before now (h.store (h.items i)).at then none else some (h.items i)

-- randAvail, on fuel for its depth, of at most `size`: the pointer of an item, and the draws left
unfoldable pub rand_avail : ℕ → Time → ClaimHeap → ℕ → List Bool → Option ℕ × List Bool
rand_avail zero now h i ds = (none, ds)
rand_avail (suc k) now h i ds =
    let item = candidate now h i in
    let left = look (is_some item) item (rand_avail k now h (2 * i + 1)) ds in
    let right = look (is_some item) left.0 (rand_avail k now h (2 * i + 2)) left.1 in
    if leb h.size i then (none, ds) else right

-- RandomAvailable, and the ID that mustTryClaimOne reads of what it returns
unfoldable pub random_available : List Bool → Time → ClaimHeap → Option String
random_available ds now h = elim (rand_avail h.size now h 0 ds).0 [
  | none ↦ none
  | some p ↦ some (h.store p).id
]

-- The arrival of an ID, by FindItem
unfoldable pub arrival : String → ClaimHeap → Option Time
arrival id h = elim (lookup id h.by_id) [ none ↦ none | some p ↦ some (h.store p).at ]
