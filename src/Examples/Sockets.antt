-- ===== src/Examples/Sockets.antt =====
-- Two processes that connect (mage/core/api.cc, mage/core/channel.cc), step by step.
use mage.Base.{true, ◌≡◌, refl, ap, ◌∙◌, [], ◌∷◌, ◌++◌, ◌+◌, ◌%◌, some, none, bytes_eq}
use mage.Base.Result.{ok}
use mage.Util.{random_identifier}
use mage.Util.Laws.{length-random_identifier}
use mage.Map.{find, erase, name_key}
use mage.Process.{Process, World, done}
use mage.Process.Exact.{step}
use mage.Channel.{read_message, invitation_message}
use mage.Channel.Frames.{IsFrame, received, read_message_lem}
use mage.Channel.Params.{view_invitation-invitation_message, view_acceptance-acceptance_message}
use mage.Node.{initial_channel_name, insert_channel, channel_of}
use mage.Node.Invitation.{node_accept_invitation}
use mage.Node.Invitation.Invited.{invitation, invited, node_send_invitation-invited}
use mage.Node.Invitation.Invitee.{acceptance, connected}
use mage.Api.{
  on_can_read_from_socket, new_process, sends_invitation, accepts_invitation, reads, perform,
  accept_invitation, send_invitation_and_get_message_pipe,
}
use mage.Api.Handshake.{Waits, control-IsFrame, on_can_read-invitation}
use mage.Network.{
  Network, written_on, join, new_bytes, mirrored, starting, after_call, after_read, calls, hears,
  left_steps, right_steps, stays, goes_on,
}
use mage.Network.Reach.{IsConnected, Steps-IsConnected}
use mage.Examples.Data.{world}
use mage.Examples.Histories.{start}
use mage.Examples.Networks.{start-MayInvite}

-- Its draws are others.
abbrev other_world : World
other_world = record world { draw = λ i. (i + 7) % 62 }

abbrev other_start : Process
other_start = new_process other_world

abbrev accepts : Process
accepts = record other_start {
  has_accepted_invitation = true;
  finished_accepting_invitation_callback = some 3;
  node_channel_map = (initial_channel_name, 6) ∷ [];
  watched = 6 ∷ [];
}

invites-performed : perform (sends_invitation 5 none) start ≡ done tt (invited start 5)
unfolding perform send_invitation_and_get_message_pipe new_process
invites-performed = step _ (node_send_invitation-invited start 5 start-MayInvite) refl

accepts-performed : perform (accepts_invitation 6 (some 3)) other_start ≡ done tt accepts
unfolding perform accept_invitation node_accept_invitation insert_channel channel_of new_process
    find
accepts-performed = refl

-- One process has invited, the other waits for the invitation.
abbrev invited_network : Network
invited_network = after_call (starting world other_world 5 6) (invited start 5)

abbrev waiting_network : Network
waiting_network = mirrored (after_call (mirrored invited_network) accepts)

on_its_way : waiting_network.to_right ≡ (invitation_message (invitation start)).payload_buffer ++ []
unfolding new_bytes written_on join new_process
on_its_way = refl

accepts-Waits : Waits accepts (invitation start) 6 3
unfolding find erase bytes_eq new_process
accepts-Waits =
    let own = length-random_identifier other_world.draw 0 in
    let (_, _, _, is) =
      view_acceptance-acceptance_message (acceptance accepts (invitation start))
        (length-random_identifier start.world.draw (start.drawn + 15 + 15)) own
        (length-random_identifier other_world.draw 15) in
    record { initial = refl; unknown = refl; calls = refl; own_name = own; takes = is }

abbrev joined : Process
joined = connected accepts (invitation start) 6 3

abbrev joined_network : Network
joined_network = mirrored (
    after_read (mirrored waiting_network) (received (invitation_message (invitation start))) []
      joined)

invitation-IsFrame : IsFrame (invitation_message (invitation start))
unfolding new_process random_identifier
invitation-IsFrame =
    let (_, _, says, is) =
      view_invitation-invitation_message (invitation start) (length-random_identifier world.draw 0)
        (length-random_identifier world.draw 45) (length-random_identifier world.draw 15) in
    control-IsFrame (invitation_message (invitation start)) says is

invitation-read :
    read_message waiting_network.to_right
    ≡ ok (received (invitation_message (invitation start)), [])
invitation-read =
    ap read_message on_its_way
    ∙ read_message_lem (invitation_message (invitation start)) [] invitation-IsFrame

reads-performed : perform (reads waiting_network.to_right) accepts ≡ done tt joined
unfolding perform new_process
reads-performed =
    step _
      (ap (λ l. on_can_read_from_socket l accepts) on_its_way
        ∙ on_can_read-invitation accepts (invitation start) 6 3 []
            (record {
              inviter = length-random_identifier world.draw 0;
              temporary = length-random_identifier world.draw 45;
              intended = length-random_identifier world.draw 15;
            })
            accepts-Waits)
      refl

Steps-IsConnected_example : IsConnected joined_network
Steps-IsConnected_example = Steps-IsConnected world other_world 5 6 joined_network (
    goes_on
      (goes_on (goes_on stays (left_steps (calls (sends_invitation 5 none) tt invites-performed)))
        (right_steps (calls (accepts_invitation 6 (some 3)) tt accepts-performed)))
      (right_steps (hears invitation-read reads-performed)))
