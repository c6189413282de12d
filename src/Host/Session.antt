-- ===== src/Host/Session.antt =====
-- A guest's connection, `run_guest` of crates/dots-rs-transport/src/host.rs, one read at a time. The
-- texts of the errors and the log lines are left out. `now` is the time of the read.
use dots_rust.Prelude.{
  ℕ, String, true, false, Option, none, some, List, [], ◌∷◌, if◌then◌else◌, str_eq, unwrap_or,
}
use dots_rust.PropertySet.{PropertySet}
use dots_rust.Container.Map.{Bytes}
use dots_rust.Container.{DotsHeader}
use dots_rust.Host.Writer.{record_received, close, is_overflowed}
use dots_rust.Host.Types.{
  Env, Host, DotsMsgConnect, DotsMsgHello, DotsMsgConnectResponse, DotsConnectionState,
  early_subscribe, connected, host_id,
}
use dots_rust.Host.Groups.{set_client_name, set_writer}
use dots_rust.Host.Publish.{enqueue_at}
use dots_rust.Host.Replay.{no_header}
use dots_rust.Host.Removal.{fire_transition, remove_guest}
use dots_rust.Host.Messages.{RawTransmission, handle_connected_message}

-- `HostError`
pub data HostError : Type 0 where
  transport decode : HostError

pub data ReadError : Type 0 where
  connection_reset connection_aborted broken_pipe unexpected_eof not_connected : ReadError
  other_io framing : ReadError

-- What the stream gives: a transmission and the size of its frame, an error, or its end.
pub data Read : Type 0 where
  received : RawTransmission → ℕ → Read
  failed : ReadError → Read
  ended : Read

-- Waiting for the Connect, then for the end of the preload with the guest's name, then connected;
-- and behind the return, with its error.
pub data Phase : Type 0 where
  awaiting serving : Phase
  preloading : Option String → Phase
  returned : Option HostError → Phase

-- `Ok(())` is `none`.
unfoldable pub guest_read_error : ReadError → Option HostError
guest_read_error connection_reset = none
guest_read_error connection_aborted = none
guest_read_error broken_pipe = none
guest_read_error unexpected_eof = none
guest_read_error not_connected = none
guest_read_error other_io = some transport
guest_read_error framing = some transport

abbrev pub no_response : DotsMsgConnectResponse
no_response = record {
  server_name = none;
  client_id = none;
  accepted = none;
  preload = none;
  preload_finished = none;
}

-- The header that `write_typed` writes.
abbrev pub typed_header : String → PropertySet → DotsHeader
typed_header name valid = record no_header {
  type_name = some name;
  attributes = some valid;
  sender = some host_id;
}

module _ (env : Env) where
  abbrev pub write_to : ℕ → Bytes → Host env → Host env
  write_to a frame host = record host { writers = enqueue_at a frame host.writers }

  -- The first phase: the Hello is queued.
  unfoldable pub say_hello : ℕ → Host env → Host env
  unfolding enqueue_at
  say_hello a host =
      let hello : DotsMsgHello = record {
        server_name = some host.self_name;
        auth_challenge = some 0;
        authentication_required = some false;
        capabilities = some (record { filtered_subscriptions = some true });
      } in
      write_to a (env.encode_hello (typed_header "DotsMsgHello" (env.hello_valid hello)) hello) host

  unfoldable pub respond : ℕ → DotsMsgConnectResponse → Host env → Host env
  unfolding enqueue_at
  respond a response host =
      write_to a
        (env.encode_response (typed_header "DotsMsgConnectResponse" (env.response_valid response))
          response)
        host

  abbrev pub tell : ℕ → Option String → DotsConnectionState → Host env → Host env
  tell client_id name state host =
      fire_transition env
        (record { client_id = client_id; client_name = name; state = state; final_stats = none })
        host

  -- `decode_handshake` of a Connect
  unfoldable pub decode_handshake : RawTransmission → Option DotsMsgConnect
  decode_handshake raw =
      if str_eq (unwrap_or raw.header.type_name "") "DotsMsgConnect"
      then env.decode_connect raw.payload
      else none

  -- The second phase, with a Connect.
  unfoldable pub accept_connect : ℕ → ℕ → DotsMsgConnect → Host env → Phase × Host env
  unfolding set_client_name respond fire_transition
  accept_connect client_id a connect host =
      let preload = unwrap_or connect.preload_cache false in
      let named = set_client_name env client_id connect.client_name host in
      let answered =
        respond a
          (record no_response {
            server_name = some named.self_name;
            client_id = some client_id;
            accepted = some true;
            preload = some preload;
          })
          named in
      (
        (if preload then preloading connect.client_name else serving),
        tell client_id connect.client_name (if preload then early_subscribe else connected)
            answered,
      )

  abbrev pub first_read : ℕ → ℕ → Read → Host env → Phase × Host env
  first_read client_id a (received raw size) host = elim (decode_handshake raw) [
    | none ↦ (returned (some decode), host)
    | some connect ↦ accept_connect client_id a connect host
  ]
  first_read client_id a (failed e) host = (returned (some transport), host)
  first_read client_id a ended host = (returned (some transport), host)

  -- A frame is credited to the guest.
  abbrev pub credit : ℕ → ℕ → Host env → Host env
  credit a size host = record host {
    writers = set_writer env a (record_received size (host.writers a)) host.writers;
  }

  -- The guest has sent its last subscription of the preload.
  unfoldable pub finish_preload : ℕ → ℕ → Option String → Host env → Phase × Host env
  unfolding respond fire_transition
  finish_preload client_id a name host =
      let answered =
        respond a
          (record no_response {
            server_name = some host.self_name;
            client_id = some client_id;
            accepted = some true;
            preload_finished = some true;
          })
          host in
      (serving, tell client_id name connected answered)

  abbrev pub preload_connect :
      ℕ → ℕ → Option String → Option DotsMsgConnect → Host env → Phase × Host env
  preload_connect client_id a name none host = (returned (some decode), host)
  preload_connect client_id a name (some connect) host =
      if unwrap_or connect.preload_client_finished false
      then finish_preload client_id a name host
      else (preloading name, host)

  -- `handle_preload_message`, and the loop around it.
  unfoldable pub preload_message :
      ℕ → ℕ → Option String → RawTransmission → ℕ → Host env → Phase × Host env
  unfolding finish_preload handle_connected_message decode_handshake
  preload_message client_id a name raw now host =
      if str_eq (unwrap_or raw.header.type_name "") "DotsMsgConnect"
      then preload_connect client_id a name (decode_handshake raw) host
      else (preloading name, handle_connected_message env client_id raw now host)

  abbrev pub preload_read : ℕ → ℕ → Option String → Read → ℕ → Host env → Phase × Host env
  preload_read client_id a name (received raw size) now host =
      preload_message client_id a name raw now (credit a size host)
  preload_read client_id a name (failed e) now host = (returned (guest_read_error e), host)
  preload_read client_id a name ended now host = (returned none, host)

  -- The last phase; a writer that overflowed ends the connection.
  abbrev pub serve_read : ℕ → ℕ → Read → ℕ → Host env → Phase × Host env
  serve_read client_id a (received raw size) now host =
      let handled = handle_connected_message env client_id raw now (credit a size host) in
      ((if is_overflowed (handled.writers a) then returned (some transport) else serving), handled)
  serve_read client_id a (failed e) now host = (returned (guest_read_error e), host)
  serve_read client_id a ended now host = (returned none, host)

  -- One read of `run_guest`, for the guest with the writer at the address `a`.
  unfoldable pub guest_step : ℕ → ℕ → Phase → Read → ℕ → Host env → Phase × Host env
  unfolding accept_connect preload_message decode_handshake guest_read_error
  guest_step client_id a awaiting read now host = first_read client_id a read host
  guest_step client_id a (preloading name) read now host =
      preload_read client_id a name read now host
  guest_step client_id a serving read now host = serve_read client_id a read now host
  guest_step client_id a (returned e) read now host = (returned e, host)

  -- The reads of a connection with their times.
  unfoldable pub guest_run : ℕ → ℕ → Phase → List (Read × ℕ) → Host env → Phase × Host env
  unfolding guest_step
  guest_run client_id a phase [] host = (phase, host)
  guest_run client_id a phase ((read, now) ∷ reads) host =
      let (phase', host') = guest_step client_id a phase read now host in
      guest_run client_id a phase' reads host'

  -- Behind `run_guest`: the writer is closed, the drainer empties it, and the guest is removed.
  unfoldable pub end_of_task : ℕ → ℕ → ℕ → Host env → Host env
  unfolding close remove_guest
  end_of_task client_id a now host =
      remove_guest env client_id now
        (record host { writers = set_writer env a (close (host.writers a)) host.writers })
