-- ===== src/Magen/Proxy.antt =====
-- mage/public/parser/classes.tmpl: the proxy of an interface, which serializes the arguments of a method
-- into a message and sends it.
use mage.Base.{ℕ, ◌+◌, Bool, true, false, not, List, [], ◌∷◌, ◌++◌, length, ◌==◌, if◌then◌else◌}
use mage.Base.Result.{Result, ok, crash, check_failed}
use mage.Bytes.{memcpy, write_int}
use mage.Message.{
  Message, MessagePipe, EndpointDescriptor, user_message, new_message, allocate, descriptor_bytes,
  set_user_message_id, write_endpoints, finalize_size,
}
use mage.Process.{M, pure, lift, require, ◌>>=◌, ◌>>◌}
use mage.Core.{populate_endpoint_descriptor}
use mage.Api.{send_message}
use mage.Magen.{
  MagenType, native, string, message_pipe, native_size, Argument, Arguments, Method, field_size,
  field_at, first_field_at, params_size, count_handles, write_string,
}

pub record Proxy : Type 0 where
  pub bound : Bool
  pub local_handle : MessagePipe

-- `std::make_unique` value-initializes the members.
abbrev pub new_proxy : Proxy
new_proxy = record { bound = false; local_handle = 0 }

unfoldable pub bind_to_pipe : Proxy → MessagePipe → Result Proxy
bind_to_pipe proxy local_handle =
    if not proxy.bound
    then ok (record { bound = true; local_handle = local_handle })
    else crash check_failed

unfoldable pub unbind : Proxy → Result (MessagePipe × Proxy)
unbind proxy =
    if proxy.bound
    then ok (proxy.local_handle, record { bound = false; local_handle = 0 })
    else crash check_failed

-- One argument, to its member at `location`; a handle adds to the endpoints to write.
unfoldable pub write_argument :
    (t : MagenType)
    → Argument t
    → (local_handle : MessagePipe) → (location : ℕ) → Message
    → M (Message × List EndpointDescriptor)
unfolding write_int write_string populate_endpoint_descriptor memcpy descriptor_bytes
write_argument (native t) v local_handle location m =
    pure (record m { payload_buffer = write_int m.payload_buffer location (native_size t) v }, [])
write_argument string s local_handle location m = do
  m' ← lift (write_string s location m)
  pure (m', [])
write_argument message_pipe handle local_handle location m = do
  d ← populate_endpoint_descriptor handle local_handle
  pure (record m { payload_buffer = memcpy m.payload_buffer location (descriptor_bytes d) }, d ∷ [])

-- The arguments in their order; `params` is where the parameters start, and `end` what is taken of them.
unfoldable pub write_arguments :
    (ts : List MagenType)
    → Arguments ts
    → (local_handle : MessagePipe) → (params end : ℕ) → Message
    → M (Message × List EndpointDescriptor)
unfolding field_at write_argument
write_arguments [] arguments local_handle params end m = pure (m, [])
write_arguments (t ∷ ts) (a, arguments) local_handle params end m = do
  (m', first) ← write_argument t a local_handle (params + field_at end t) m
  (m'', rest) ← write_arguments ts arguments local_handle params (field_at end t + field_size t) m'
  pure (m'', first ++ rest)

-- The message of a call, before it is sent.
unfoldable pub serialize : (method : Method) → Arguments method.types → MessagePipe → M Message
unfolding new_message allocate params_size write_arguments set_user_message_id count_handles
    write_endpoints finalize_size
serialize method arguments local_handle = do
  let (params, m) = allocate (new_message user_message) (params_size method.types)
  (m', endpoints_to_write) ←
      write_arguments method.types arguments local_handle params first_field_at m
  let identified = set_user_message_id m' method.id
  require (count_handles method.types == length endpoints_to_write)
  m'' ← lift (write_endpoints identified endpoints_to_write)
  pure (finalize_size m'')

-- A method of the proxy.
unfoldable pub call : Proxy → (method : Method) → Arguments method.types → M (Unit {0})
unfolding serialize send_message
call proxy method arguments = do
  require proxy.bound
  m ← serialize method arguments proxy.local_handle
  send_message proxy.local_handle m
