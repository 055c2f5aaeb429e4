-- ===== src/Queue.antt =====
-- internal/queue/queue.go. The float64 of priorities is a type `F` with the operations that the
-- queue calls, a parameter; what the proofs assume of it is `FloatOrder` and `FloatMono`. A method
-- that reads time.Now takes the reading as an argument.
use ns_cas.Base.{
  ℕ, ◌≡◌, Bool, true, false, String, str_eq, List, [], ◌∷◌, ◌++◌, map, Option, none, some, length,
  if◌then◌else◌,
}
use ns_cas.Base.Int.{ℤ, ◌≤ℤ◌}
use ns_cas.Messages.{sub_time}
use ns_cas.Chan.{Chans, try_send}
pub mod Sort
pub mod Order
pub mod Waiting

pub record Floats (F : Type 0) : Type 0 where
  pub of_int : ℕ → F
  pub add : F → F → F
  pub mul : F → F → F
  pub gtb : F → F → Bool
  pub duration_seconds : ℤ → F  -- time.Duration.Seconds

pub record Item (F : Type 0) : Type 0 where
  pub appliance_id : String
  pub priority_class : String
  pub base_priority : F
  pub queued_at : ℤ
  pub backlog : ℤ
  pub response_chan : ℕ

pub record Queue (F : Type 0) : Type 0 where
  pub items : List (Item F)
  pub aging_weight : F

pub record SnapshotItem (F : Type 0) : Type 0 where
  pub appliance_id : String
  pub priority_class : String
  pub wait_seconds : F
  pub effective_priority : F
  pub backlog : ℤ

-- sort.SliceStable with the comparison `key a > key b`, as an insertion sort: of two items with
-- equal keys the one that stood first stays first.
module _ {F : Type 0} (o : Floats F) (key : Item F → F) where
  unfoldable pub insert_item : Item F → List (Item F) → List (Item F)
  insert_item x [] = x ∷ []
  insert_item x (y ∷ ys) =
      let rest = insert_item x ys in if o.gtb (key y) (key x) then y ∷ rest else x ∷ y ∷ ys

  unfoldable pub sort_slice_stable : List (Item F) → List (Item F)
  sort_slice_stable [] = []
  sort_slice_stable (x ∷ xs) = insert_item x (sort_slice_stable xs)

module _ {F : Type 0} where
  unfoldable pub new : F → Queue F
  new w = record { items = []; aging_weight = w }

  unfoldable pub len : Queue F → ℕ
  len q = length q.items

  unfoldable pub enqueue : Item F → Queue F → Queue F
  enqueue item q = record q { items = q.items ++ item ∷ [] }

  unfoldable pub effective_priority : Floats F → F → ℤ → Item F → F
  effective_priority o w now item =
      o.add item.base_priority (o.mul w (o.duration_seconds (sub_time now item.queued_at)))

  unfoldable pub sort_by_effective : Floats F → ℤ → Queue F → Queue F
  sort_by_effective o now q = record q {
    items = sort_slice_stable o (effective_priority o q.aging_weight now) q.items;
  }

  abbrev pub take_head : F → List (Item F) → Option (Item F × Queue F)
  take_head w [] = none
  take_head w (best ∷ rest) = some (best, record { items = rest; aging_weight = w })

  unfoldable pub pop_best : Floats F → ℤ → Queue F → Option (Item F × Queue F)
  pop_best o now q = take_head q.aging_weight (sort_by_effective o now q).items

  unfoldable pub remove_item : String → List (Item F) → List (Item F)
  remove_item id [] = []
  remove_item id (it ∷ its) = if str_eq it.appliance_id id then its else it ∷ remove_item id its

  unfoldable pub has_item : String → List (Item F) → Bool
  has_item id [] = false
  has_item id (it ∷ its) = if str_eq it.appliance_id id then true else has_item id its

  unfoldable pub has_appliance : String → Queue F → Bool
  has_appliance id q = has_item id q.items

  -- The Boolean result says whether an item was found and removed.
  unfoldable pub remove : String → Queue F → Queue F × Bool
  remove id q = (record q { items = remove_item id q.items }, has_item id q.items)

  unfoldable pub send_all : Bool → List (Item F) → Chans → Chans
  send_all b [] cs = cs
  send_all b (it ∷ its) cs = send_all b its (try_send it.response_chan b cs).0

  unfoldable pub drain_all : Queue F → Chans → Queue F × Chans
  drain_all q cs = (record q { items = [] }, send_all false q.items cs)

  unfoldable pub snapshot : Floats F → ℤ → Queue F → List (SnapshotItem F)
  snapshot o now q =
      map
        (λ it. record {
          appliance_id = it.appliance_id;
          priority_class = it.priority_class;
          wait_seconds = o.duration_seconds (sub_time now it.queued_at);
          effective_priority =
              o.add it.base_priority
                (o.mul q.aging_weight (o.duration_seconds (sub_time now it.queued_at)));
          backlog = it.backlog;
        })
        q.items
