-- ===== src/Safety/Tokens.antt =====
-- The token of a queued grant on its way to the waiter: storeQueueToken and ConsumeQueueToken in
-- internal/handlers/engine.go.
use ns_cas.Base.{◌≡◌, refl, ap, ◌∙◌, eq_iff, String, List, Option, none, some}
use ns_cas.Dict
use ns_cas.Engine.{Engine}
use ns_cas.Dispatcher.{store_queue_token, store_entry, consume_queue_token}

erase-insert_self :
    (id tok : String) (m : List (String × String))
    → Dict.lookup id m ≡ none
    → Dict.erase id (Dict.insert id tok m) ≡ m
unfolding Dict.insert Dict.erase
erase-insert_self id tok m h = rw ((eq_iff id id).1 refl) (Dict.erase_absent id m h)

module _ {F : Type 0} where
  store_entry_tokens :
      (id tok : String) (entry : Option (String × String)) (e : Engine F)
      → entry ≡ some (id, tok)
      → Dict.lookup id (store_entry entry e).queue_tokens ≡ some tok
  store_entry_tokens id tok entry e h = rw h (Dict.lookup-insert_self id tok e.queue_tokens)

  collected :
      (id tok : String) (entry : Option (String × String)) (e : Engine F)
      → entry ≡ some (id, tok)
      → Dict.lookup id e.queue_tokens ≡ none
      → Dict.erase id (store_entry entry e).queue_tokens ≡ e.queue_tokens
  collected id tok entry e h absent = rw h (erase-insert_self id tok e.queue_tokens absent)

  -- While a granted token of an appliance is held for storing and the token map has no entry for
  -- the appliance, collecting after the store gives the token, and leaves no entry; collecting
  -- before the store gives none, and a second collection after the store still gives it.
  pub queue_token_handed_over :
      (id tok : String) (e : Engine F)
      → e.pending_store ≡ some (id, tok)
      → Dict.lookup id e.queue_tokens ≡ none
      → ((consume_queue_token id (store_queue_token e)).1 ≡ some tok)
        × ((consume_queue_token id e).1 ≡ none)
        × ((consume_queue_token id (store_queue_token (consume_queue_token id e).0)).1 ≡ some tok)
        × (Dict.lookup id (consume_queue_token id (store_queue_token e)).0.queue_tokens ≡ none)
  unfolding consume_queue_token store_queue_token
  queue_token_handed_over id tok e p absent = (
    store_entry_tokens id tok e.pending_store e p,
    absent,
    store_entry_tokens id tok e.pending_store (consume_queue_token id e).0 p,
    ap (Dict.lookup id) (collected id tok e.pending_store e p absent) ∙ absent,
  )
