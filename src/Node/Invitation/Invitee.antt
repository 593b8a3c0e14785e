-- ===== src/Node/Invitation/Invitee.antt =====
-- The process that accepts an invitation, in mage/core/node.cc: `AcceptInvitation`, and what
-- `OnReceivedInvitation` does.
use mage.Util.{random_identifier}
use mage.Util.Laws.{length-random_identifier}
use mage.Base.{◌+◌, ◌%◌, ◌^◌, ◌≡◌, refl, sym, ◌∙◌, [], ◌∷◌, ◌++◌, some, none, length, arith}
use mage.Base.Result.{ok}
use mage.Message.{Name, Message, identifier_size}
use mage.Map.{find, insert, erase, name_key, pipe_key}
use mage.Map.Laws.{find-insert_self}
use mage.Endpoint.{Endpoint, new_endpoint}
use mage.Process.{Process, Ref, Fd, Callback, accepted_invitation, done}
use mage.Process.Heap.{allocate_endpoint, fresh_identifier}
use mage.Process.Exact.{step, or_fail-some, lift-ok}
use mage.Channel.{InvitationParams, AcceptanceParams, view_invitation, acceptance_message}
use mage.Channel.Write.{Writes, send_on_channel-Writes}
use mage.Channel.Params.{view_acceptance-acceptance_message}
use mage.Core.{core_on_received_invitation, get_next_message_pipe, insert_handle}
use mage.Node.{initial_channel_name, insert_channel, channel_of, rename_channel}
use mage.Node.Invitation.{on_received_invitation}

pub rename_channel-fresh :
    (s : Process) (old new : Name) (fd : Fd)
    → find old s.node_channel_map ≡ some fd
    → find new (erase old s.node_channel_map) ≡ none
    → rename_channel old new s
      ≡ done tt (record s { node_channel_map = insert new fd (erase old s.node_channel_map) })
unfolding rename_channel insert_channel
rename_channel-fresh s old new fd found absent = step _ (or_fail-some s _ found) (rw absent refl)

-- An invitation is on its way to a process that has accepted one, on the channel `fd`.
pub record IsInvited (s : Process) (m : Message) (p : InvitationParams) (fd : Fd)
    (callback : Callback) : Type 0 where
  pub viewed : view_invitation m ≡ ok p
  pub initial : find initial_channel_name s.node_channel_map ≡ some fd
  pub unknown : find p.inviter_name (erase initial_channel_name s.node_channel_map) ≡ none
  pub calls : s.finished_accepting_invitation_callback ≡ some callback
  pub own_name : length s.name ≡ 15
  pub temporary_name : length p.temporary_remote_node_name ≡ 15

-- What the invitee becomes: its endpoint, its answer and its state.
abbrev pub accepting_name : Process → Name
accepting_name s = random_identifier s.world.draw s.drawn

abbrev pub accepting : Process → InvitationParams → Endpoint
accepting s p =
    new_endpoint (accepting_name s)
      (record { node_name = p.inviter_name; endpoint_name = p.intended_endpoint_peer_name })

abbrev pub acceptance : Process → InvitationParams → AcceptanceParams
acceptance s p = record {
  temporary_remote_node_name = p.temporary_remote_node_name;
  actual_node_name = s.name;
  accept_invitation_endpoint_name = accepting_name s;
}

abbrev pub connected : Process → InvitationParams → Fd → Callback → Process
connected s p fd callback = record s {
  node_channel_map = insert p.inviter_name fd (erase initial_channel_name s.node_channel_map);
  drawn = s.drawn + identifier_size;
  heap = s.heap ++ accepting s p ∷ [];
  local_endpoints = insert (accepting_name s) (length s.heap) s.local_endpoints;
  sent = s.sent ++ (fd, (acceptance_message (acceptance s p)).payload_buffer) ∷ [];
  next_available_handle = (s.next_available_handle + 1) % 2 ^ 32;
  handle_table = insert s.next_available_handle (length s.heap) s.handle_table;
  tasks = s.tasks ++ accepted_invitation callback s.next_available_handle ∷ [];
}

-- The acceptance is a message that a channel may write.
pub acceptance-Writes :
    (s : Process) (fd : Fd) (p : AcceptanceParams)
    → length p.temporary_remote_node_name ≡ 15
    → length p.actual_node_name ≡ 15
    → length p.accept_invitation_endpoint_name ≡ 15
    → s.world.write s.sent fd (acceptance_message p).payload_buffer ≡ 85
    → Writes s fd (acceptance_message p)
acceptance-Writes s fd p la lb lc takes =
    let (_, _, says, is) = view_acceptance-acceptance_message p la lb lc in
    record { sized = says ∙ sym is; small = omega (arith, is); whole = takes ∙ sym is }

core_on_received-calls :
    (s : Process) (r : Ref) (callback : Callback)
    → s.finished_accepting_invitation_callback ≡ some callback
    → core_on_received_invitation r s
      ≡ done tt (record s {
        next_available_handle = (s.next_available_handle + 1) % 2 ^ 32;
        handle_table = insert s.next_available_handle r s.handle_table;
        tasks = s.tasks ++ accepted_invitation callback s.next_available_handle ∷ [];
      })
unfolding core_on_received_invitation get_next_message_pipe insert_handle
core_on_received-calls s r callback calls = step _ (or_fail-some _ _ calls) refl

-- A process that has accepted an invitation, knows the callback to call, and does not know the inviter,
-- receives the invitation, whose socket takes the 85 bytes of the answer. It names the initial channel by
-- the inviter; makes a queueing endpoint whose peer is the one of the invitation, registers it, and puts it
-- behind the next handle; writes the acceptance, with its own name and the endpoint's, to the channel; and
-- posts the callback with the handle.
pub on_received_invitation-connected :
    (s : Process) (m : Message) (p : InvitationParams) (fd : Fd) (callback : Callback)
    → IsInvited s m p fd callback
    → s.world.write s.sent fd (acceptance_message (acceptance s p)).payload_buffer ≡ 85
    → on_received_invitation m s ≡ done tt (connected s p fd callback)
unfolding on_received_invitation channel_of fresh_identifier allocate_endpoint
on_received_invitation-connected s m p fd callback i takes =
    let channels = insert p.inviter_name fd (erase initial_channel_name s.node_channel_map) in
    let s₁ : Process = record s {
      node_channel_map = channels;
      drawn = s.drawn + identifier_size;
      heap = s.heap ++ accepting s p ∷ [];
      local_endpoints = insert (accepting_name s) (length s.heap) s.local_endpoints;
    } in
    let answer : AcceptanceParams = acceptance s p in
    let s₂ : Process = record s₁ {
      sent = s.sent ++ (fd, (acceptance_message answer).payload_buffer) ∷ [];
    } in
    step _ (lift-ok s i.viewed) (
      step _ (rename_channel-fresh s initial_channel_name p.inviter_name fd i.initial i.unknown) (
        step _
          (or_fail-some s₁ _ (
            find-insert_self p.inviter_name fd (erase initial_channel_name s.node_channel_map)
              i.unknown))
          (step _
            (send_on_channel-Writes s₁ fd (acceptance_message answer) (
              acceptance-Writes s₁ fd answer i.temporary_name i.own_name
                (length-random_identifier s.world.draw s.drawn) takes))
            (core_on_received-calls s₂ (length s.heap) callback i.calls))))
