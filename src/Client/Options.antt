-- ===== src/Client/Options.antt =====
-- rusttgcalls.rs and wrtc/peer_factory.rs: the options of a client, what becomes of them when it is made,
-- and the setters of its callbacks.
use rusttgcalls.Prelude.{
  ℕ, Text, Bool, true, false, List, [], ◌∷◌, if◌then◌else◌, ◌==◌, lit, ◌≡◌, refl,
}
use rusttgcalls.StackApi.{StackApi}
use rusttgcalls.Client.{Client}

pub data NetworkType : Type 0 where
  udp4 udp6 tcp4 tcp6 : NetworkType

pub record ClientOptions : Type 0 where
  pub ffmpeg_path : Text
  pub connect_timeout_secs : ℕ
  pub dispatch_buf : ℕ
  pub cert_pool_size : ℕ
  pub shared_udp_mux : Bool
  pub ffmpeg_stderr_log : Bool
  pub use_direct_transport : Bool
  pub network_types : List NetworkType
  pub debug_logs : Bool
  pub verbose_connection_logs : Bool

-- `ClientOptions::default` and `ClientOptions::new`.
abbrev pub default_client_options : ClientOptions
default_client_options = record {
  ffmpeg_path = lit "ffmpeg";
  connect_timeout_secs = 10;
  dispatch_buf = 256;
  cert_pool_size = 8;
  shared_udp_mux = false;
  ffmpeg_stderr_log = false;
  use_direct_transport = false;
  network_types = udp4 ∷ udp6 ∷ [];
  debug_logs = false;
  verbose_connection_logs = false;
}

abbrev pub with_ffmpeg_path : Text → ClientOptions → ClientOptions
with_ffmpeg_path path o = record o { ffmpeg_path = path }

abbrev pub with_debug_logs : ClientOptions → ClientOptions
with_debug_logs o = record o { debug_logs = true }

abbrev pub with_ffmpeg_stderr_log : ClientOptions → ClientOptions
with_ffmpeg_stderr_log o = record o { ffmpeg_stderr_log = true }

abbrev pub with_shared_udp_mux : ClientOptions → ClientOptions
with_shared_udp_mux o = record o { shared_udp_mux = true }

abbrev pub with_dtls_cert_pool : ℕ → ClientOptions → ClientOptions
with_dtls_cert_pool size o = record o { cert_pool_size = size }

abbrev pub with_dispatch_buffer : ℕ → ClientOptions → ClientOptions
with_dispatch_buffer size o = record o { dispatch_buf = size }

abbrev pub with_network_types : List NetworkType → ClientOptions → ClientOptions
with_network_types types o = record o { network_types = types }

abbrev pub with_connect_timeout : ℕ → ClientOptions → ClientOptions
with_connect_timeout secs o = record o { connect_timeout_secs = secs }

abbrev pub with_direct_transport : Bool → ClientOptions → ClientOptions
with_direct_transport enabled o = record o { use_direct_transport = enabled }

abbrev pub with_verbose_connection_logs : ClientOptions → ClientOptions
with_verbose_connection_logs o = record o { verbose_connection_logs = true }

-- The crate has the type of networks twice, with the same names; it is one type here.
pub record FactoryOptions : Type 0 where
  pub network_types : List NetworkType
  pub cert_pool_size : ℕ
  pub shared_udp_mux : Bool

-- `PeerFactory`, with the size of its pool of certificates.
pub record PeerFactory : Type 0 where
  pub options : FactoryOptions
  pub pool_size : ℕ

-- `PeerFactory::new_with_options`.
unfoldable pub new_factory : FactoryOptions → PeerFactory
new_factory o = record {
  options = o;
  pool_size = if o.cert_pool_size == 0 then 8 else o.cert_pool_size;
}

-- A client that is made: its options, its factory, and the rest of its state.
pub record Made (api : StackApi) (Reader : Type 0) : Type 0 where
  pub options : ClientOptions
  pub factory : PeerFactory
  pub client : Client api Reader

module _ {api : StackApi} {Reader : Type 0} where
  -- `Client::new_with_options`.
  unfoldable pub new_with_options : ClientOptions → Made api Reader
  unfolding new_factory
  new_with_options o = record {
    options = o;
    factory = new_factory (record {
      network_types = o.network_types;
      cert_pool_size = o.cert_pool_size;
      shared_udp_mux = o.shared_udp_mux;
    });
    client = record {
      calls = [];
      on_stream_end = false;
      on_connection_change = false;
      on_upgrade = false;
      upgrades = [];
      released = [];
    };
  }

  unfoldable pub set_on_stream_end : Client api Reader → Client api Reader
  set_on_stream_end c = record c { on_stream_end = true }

  unfoldable pub set_on_connection_change : Client api Reader → Client api Reader
  set_on_connection_change c = record c { on_connection_change = true }

  unfoldable pub set_on_upgrade : Client api Reader → Client api Reader
  set_on_upgrade c = record c { on_upgrade = true }

  -- The path of ffmpeg, its log and the size of the dispatcher's buffer are kept in the options and go
  -- nowhere else.
  new_with_options-ignores :
      (path : Text) (size : ℕ) (o : ClientOptions)
      → let made =
          new_with_options
            (with_dispatch_buffer size (with_ffmpeg_stderr_log (with_ffmpeg_path path o))) in
        let plain = new_with_options o in
        (made.factory ≡ plain.factory) × (made.client ≡ plain.client)
  unfolding new_with_options
  new_with_options-ignores path size o = (refl, refl)
