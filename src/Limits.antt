-- ===== src/Limits.antt =====
-- crates/sukkula-core/src/limits.rs: the hard limits.
use sukkula.Base.{ℕ, ◌*◌}

abbrev kib : ℕ
kib = 1024

abbrev pub mib : ℕ
mib = 1024 * kib

abbrev gib : ℕ
gib = 1024 * mib

abbrev pub max_file_bytes : ℕ
max_file_bytes = 8 * gib

abbrev pub max_offer_bytes : ℕ
max_offer_bytes = 16 * gib

abbrev pub max_files_per_offer : ℕ
max_files_per_offer = 500

abbrev pub max_message_bytes : ℕ
max_message_bytes = 64 * 1024

abbrev pub max_name_bytes : ℕ
max_name_bytes = 200

abbrev pub max_extension_bytes : ℕ
max_extension_bytes = 16

abbrev pub max_alias_chars : ℕ
max_alias_chars = 64

abbrev pub max_model_chars : ℕ
max_model_chars = 64

abbrev pub max_mime_bytes : ℕ
max_mime_bytes = 127

abbrev pub max_pin_chars : ℕ
max_pin_chars = 16

abbrev pub max_combining_run : ℕ
max_combining_run = 3

abbrev pub max_pending_offers : ℕ
max_pending_offers = 2

abbrev pub rate_limit_entries : ℕ
rate_limit_entries = 256

-- Durations are in seconds.
abbrev pub offer_timeout : ℕ
offer_timeout = 60

abbrev pub network_idle_timeout : ℕ
network_idle_timeout = 30

abbrev pub handshake_timeout : ℕ
handshake_timeout = 20

abbrev pub io_chunk_bytes : ℕ
io_chunk_bytes = 64 * 1024

abbrev pub discovery_burst : ℕ
discovery_burst = 8

abbrev pub discovery_window : ℕ
discovery_window = 10

abbrev pub offer_burst : ℕ
offer_burst = 3

abbrev pub offer_window : ℕ
offer_window = 60

abbrev pub global_offer_burst : ℕ
global_offer_burst = 10

abbrev pub global_offer_window : ℕ
global_offer_window = 60

abbrev pub max_peers : ℕ
max_peers = 64

abbrev pub max_active_transfers : ℕ
max_active_transfers = 8

abbrev pub max_event_bytes : ℕ
max_event_bytes = 256 * 1024
