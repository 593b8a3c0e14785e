-- ===== src/Node/Pipes.antt =====
-- `Node::CreateMessagePipesAndGetEndpoints` of mage/core/node.cc makes two endpoints, each the other's
-- peer, and registers them with their handles.
use mage.Util.{random_identifier}
use mage.Base.{
  ◌+◌, ◌%◌, ◌^◌, ◌<◌, ◌≡◌, ◌≢◌, refl, sym, ap, ◌∙◌, [], ◌∷◌, ◌++◌, some, none, not, get_elem?,
  length, arith, get_elem?-append_left, get_elem?-append_length,
}
use mage.Message.{Name, MessagePipe, identifier_size}
use mage.Map.{find, insert, name_key, pipe_key}
use mage.Map.Laws.{find-insert_self, find-insert_ne}
use mage.Endpoint.{Endpoint, new_endpoint}
use mage.Process.{Process, Ref, done}
use mage.Process.Heap.{allocate_endpoint, fresh_identifier}
use mage.Process.Exact.{step, require-true, deref-there}
use mage.Core.{
  is_none, get_next_message_pipe, register_local_handle_and_endpoint, insert_handle,
  register_endpoint,
}
use mage.Node.{
  initialize_and_entangle_endpoints, create_message_pipes_and_get_endpoints, require_registered,
}

pub register_local-fresh :
    (s : Process) (handle : MessagePipe) (r : Ref) (e : Endpoint)
    → find handle s.handle_table ≡ none
    → get_elem? s.heap r ≡ some e
    → find e.name s.local_endpoints ≡ none
    → register_local_handle_and_endpoint handle r s
      ≡ done tt (record s {
        handle_table = insert handle r s.handle_table;
        local_endpoints = insert e.name r s.local_endpoints;
      })
unfolding register_local_handle_and_endpoint insert_handle register_endpoint
register_local-fresh s handle r e new there unnamed =
    step _ (require-true s (is_none (find handle s.handle_table)) (ap is_none new)) (
      step _ (deref-there (record s { handle_table = insert handle r s.handle_table }) r there) (
        step _
          (require-true (record s { handle_table = insert handle r s.handle_table })
            (is_none (find e.name s.local_endpoints)) (ap is_none unnamed))
          refl))

pub require_registered-there :
    (s : Process) (r r' : Ref) (e : Endpoint)
    → get_elem? s.heap r ≡ some e
    → find e.name s.local_endpoints ≡ some r'
    → require_registered r s ≡ done tt s
unfolding require_registered
require_registered-there s r r' e there found = step _ (deref-there s r there) (
    require-true s (not (is_none (find e.name s.local_endpoints)))
      (ap (λ o. not (is_none o)) found))

-- The names, the endpoints, the handles and the state that a creation in `s` leaves.
module _ (s : Process) where
  abbrev pub first_name : Name
  first_name = random_identifier s.world.draw s.drawn

  abbrev pub second_name : Name
  second_name = random_identifier s.world.draw (s.drawn + identifier_size)

  abbrev pub first : Endpoint
  first = new_endpoint first_name (record { node_name = s.name; endpoint_name = second_name })

  abbrev pub second : Endpoint
  second = new_endpoint second_name (record { node_name = s.name; endpoint_name = first_name })

  abbrev pub first_handle : MessagePipe
  first_handle = s.next_available_handle

  abbrev pub second_handle : MessagePipe
  second_handle = (s.next_available_handle + 1) % 2 ^ 32

  abbrev pub first_ref : Ref
  first_ref = length s.heap

  abbrev pub second_ref : Ref
  second_ref = length (s.heap ++ first ∷ [])

  abbrev pub created : Process
  created = record s {
    heap = (s.heap ++ first ∷ []) ++ second ∷ [];
    next_available_handle = (second_handle + 1) % 2 ^ 32;
    handle_table = insert second_handle second_ref (insert first_handle first_ref s.handle_table);
    local_endpoints = insert second_name second_ref (insert first_name first_ref s.local_endpoints);
    drawn = s.drawn + identifier_size + identifier_size;
  }

  -- The names that are drawn and the handles that are next are not in use, and the names differ.
  pub record IsFresh : Type 0 where
    pub distinct : first_name ≢ second_name
    pub unnamed_1 : find first_name s.local_endpoints ≡ none
    pub unnamed_2 : find second_name s.local_endpoints ≡ none
    pub unused_1 : find first_handle s.handle_table ≡ none
    pub unused_2 : find second_handle s.handle_table ≡ none
    pub handle_bound : s.next_available_handle < 2 ^ 32

-- What two entangled endpoints and their handles are in a state.
pub record Entangled (t : Process) (h₁ h₂ : MessagePipe) (r₁ r₂ : Ref) (e₁ e₂ : Endpoint)
    : Type 0 where
  pub handle_1 : find h₁ t.handle_table ≡ some r₁
  pub handle_2 : find h₂ t.handle_table ≡ some r₂
  pub there_1 : get_elem? t.heap r₁ ≡ some e₁
  pub there_2 : get_elem? t.heap r₂ ≡ some e₂
  pub registered_1 : find e₁.name t.local_endpoints ≡ some r₁
  pub registered_2 : find e₂.name t.local_endpoints ≡ some r₂
  pub peer_1 : e₁.peer_address ≡ record { node_name = t.name; endpoint_name = e₂.name }
  pub peer_2 : e₂.peer_address ≡ record { node_name = t.name; endpoint_name = e₁.name }

module _ (s : Process) (fresh : IsFresh s) where
  there_first : get_elem? (created s).heap (first_ref s) ≡ some (first s)
  there_first =
      get_elem?-append_left (s.heap ++ first s ∷ []) _ (first_ref s)
        (get_elem?-append_length s.heap [] (first s))

  there_second : get_elem? (created s).heap (second_ref s) ≡ some (second s)
  there_second = get_elem?-append_length (s.heap ++ first s ∷ []) [] (second s)

  handles_differ : first_handle s ≢ second_handle s
  handles_differ h = absurd (omega (arith, fresh.handle_bound))

  new_handle : find (second_handle s) (insert (first_handle s) (first_ref s) s.handle_table) ≡ none
  new_handle = find-insert_ne _ _ s.handle_table fresh.unused_1 _ handles_differ ∙ fresh.unused_2

  new_name : find (second_name s) (insert (first_name s) (first_ref s) s.local_endpoints) ≡ none
  new_name = find-insert_ne _ _ s.local_endpoints fresh.unnamed_1 _ fresh.distinct ∙ fresh.unnamed_2

  found_first : find (first_name s) (created s).local_endpoints ≡ some (first_ref s)
  found_first =
      find-insert_ne _ _ (insert (first_name s) (first_ref s) s.local_endpoints) new_name _
        (λ h. fresh.distinct (sym h))
      ∙ find-insert_self _ _ s.local_endpoints fresh.unnamed_1

  found_second : find (second_name s) (created s).local_endpoints ≡ some (second_ref s)
  found_second =
      find-insert_self _ _ (insert (first_name s) (first_ref s) s.local_endpoints) new_name

  created-Entangled :
      Entangled
        (created s)
        (first_handle s)
        (second_handle s)
        (first_ref s)
        (second_ref s)
        (first s)
        (second s)
  created-Entangled = record {
    handle_1 =
        find-insert_ne _ _ (insert (first_handle s) (first_ref s) s.handle_table) new_handle _
          (λ h. handles_differ (sym h))
        ∙ find-insert_self _ _ s.handle_table fresh.unused_1;
    handle_2 =
        find-insert_self _ _ (insert (first_handle s) (first_ref s) s.handle_table) new_handle;
    there_1 = there_first;
    there_2 = there_second;
    registered_1 = found_first;
    registered_2 = found_second;
    peer_1 = refl;
    peer_2 = refl;
  }

-- In a state where the next handles and the names that are drawn are not in use, and the names differ,
-- a creation returns the two next handles and two new endpoints: each is registered under its name and
-- behind its handle, queues, is empty and not locked, and is the other's peer.
pub create_pipes-Entangled :
    (s : Process)
    → IsFresh s
    → (create_message_pipes_and_get_endpoints s
        ≡ done ((first_handle s, first_ref s), (second_handle s, second_ref s)) (created s))
      × Entangled
          (created s)
          (first_handle s)
          (second_handle s)
          (first_ref s)
          (second_ref s)
          (first s)
          (second s)
unfolding create_message_pipes_and_get_endpoints initialize_and_entangle_endpoints fresh_identifier
    allocate_endpoint get_next_message_pipe
create_pipes-Entangled s fresh =
    let s₁ : Process = record s {
      heap = (s.heap ++ first s ∷ []) ++ second s ∷ [];
      next_available_handle = (second_handle s + 1) % 2 ^ 32;
      drawn = s.drawn + identifier_size + identifier_size;
    } in
    let s₂ : Process = record s₁ {
      handle_table = insert (first_handle s) (first_ref s) s.handle_table;
      local_endpoints = insert (first_name s) (first_ref s) s.local_endpoints;
    } in
    let there₁ = there_first s fresh in
    let there₂ = there_second s fresh in
    (
      step _
          (register_local-fresh s₁ (first_handle s) (first_ref s) (first s) fresh.unused_1 there₁
            fresh.unnamed_1)
          (step _
            (register_local-fresh s₂ (second_handle s) (second_ref s) (second s)
              (new_handle s fresh) there₂ (new_name s fresh))
            (step _
              (require_registered-there (created s) (first_ref s) (first_ref s) (first s) there₁
                (found_first s fresh))
              (step _
                (require_registered-there (created s) (second_ref s) (second_ref s) (second s)
                  there₂ (found_second s fresh))
                refl))),
      created-Entangled s fresh,
    )
