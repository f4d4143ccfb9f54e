-- ===== src/Status/Words.antt =====
-- The keys and words of the reports.
use fast_repo.Prelude.{[], ◌∷◌}
use fast_repo.Prelude.Bytes.{Bytes}

abbrev pub manifests_word : Bytes
manifests_word = b'm' ∷ b'a' ∷ b'n' ∷ b'i' ∷ b'f' ∷ b'e' ∷ b's' ∷ b't' ∷ b's' ∷ []

abbrev pub meta_word : Bytes
meta_word = b'm' ∷ b'e' ∷ b't' ∷ b'a' ∷ []

abbrev pub stream_word : Bytes
stream_word = b's' ∷ b't' ∷ b'r' ∷ b'e' ∷ b'a' ∷ b'm' ∷ []

abbrev pub thread_word : Bytes
thread_word = b't' ∷ b'h' ∷ b'r' ∷ b'e' ∷ b'a' ∷ b'd' ∷ []

abbrev pub key_word : Bytes
key_word = b'k' ∷ b'e' ∷ b'y' ∷ []

abbrev pub requested_no_word : Bytes
requested_no_word =
    b'r' ∷ b'e' ∷ b'q' ∷ b'u' ∷ b'e' ∷ b's' ∷ b't' ∷ b'e' ∷ b'd' ∷ b'_' ∷ b'n' ∷ b'o' ∷ []

abbrev pub received_no_word : Bytes
received_no_word = b'r' ∷ b'e' ∷ b'c' ∷ b'e' ∷ b'i' ∷ b'v' ∷ b'e' ∷ b'd' ∷ b'_' ∷ b'n' ∷ b'o' ∷ []

abbrev pub fetched_word : Bytes
fetched_word = b'f' ∷ b'e' ∷ b't' ∷ b'c' ∷ b'h' ∷ b'e' ∷ b'd' ∷ []

abbrev pub failed_word : Bytes
failed_word = b'f' ∷ b'a' ∷ b'i' ∷ b'l' ∷ b'e' ∷ b'd' ∷ []

abbrev pub delta_word : Bytes
delta_word = b'd' ∷ b'e' ∷ b'l' ∷ b't' ∷ b'a' ∷ []

abbrev pub frames_pending_word : Bytes
frames_pending_word =
    b'f' ∷ b'r' ∷ b'a' ∷ b'm' ∷ b'e' ∷ b's' ∷ b'_' ∷ b'p' ∷ b'e' ∷ b'n' ∷ b'd' ∷ b'i' ∷ b'n' ∷ b'g'
    ∷ []

abbrev pub control_word : Bytes
control_word = b'c' ∷ b'o' ∷ b'n' ∷ b't' ∷ b'r' ∷ b'o' ∷ b'l' ∷ []

abbrev pub data_word : Bytes
data_word = b'd' ∷ b'a' ∷ b't' ∷ b'a' ∷ []

abbrev pub storage_word : Bytes
storage_word = b's' ∷ b't' ∷ b'o' ∷ b'r' ∷ b'a' ∷ b'g' ∷ b'e' ∷ []

abbrev pub access_word : Bytes
access_word = b'a' ∷ b'c' ∷ b'c' ∷ b'e' ∷ b's' ∷ b's' ∷ []

abbrev pub read_only_word : Bytes
read_only_word = b'r' ∷ b'e' ∷ b'a' ∷ b'd' ∷ b'-' ∷ b'o' ∷ b'n' ∷ b'l' ∷ b'y' ∷ []

abbrev pub read_write_word : Bytes
read_write_word = b'r' ∷ b'e' ∷ b'a' ∷ b'd' ∷ b'-' ∷ b'w' ∷ b'r' ∷ b'i' ∷ b't' ∷ b'e' ∷ []

abbrev pub n_keys_word : Bytes
n_keys_word = b'n' ∷ b'K' ∷ b'e' ∷ b'y' ∷ b's' ∷ []

abbrev pub size_word : Bytes
size_word = b's' ∷ b'i' ∷ b'z' ∷ b'e' ∷ []

abbrev pub rename_word : Bytes
rename_word = b'r' ∷ b'e' ∷ b'n' ∷ b'a' ∷ b'm' ∷ b'e' ∷ []

abbrev pub repo_word : Bytes
repo_word = b'r' ∷ b'e' ∷ b'p' ∷ b'o' ∷ []

abbrev pub pattern_handle_word : Bytes
pattern_handle_word =
    b'p' ∷ b'a' ∷ b't' ∷ b't' ∷ b'e' ∷ b'r' ∷ b'n' ∷ b'-' ∷ b'h' ∷ b'a' ∷ b'n' ∷ b'd' ∷ b'l' ∷ b'e'
    ∷ []

abbrev pub supported_word : Bytes
supported_word = b's' ∷ b'u' ∷ b'p' ∷ b'p' ∷ b'o' ∷ b'r' ∷ b't' ∷ b'e' ∷ b'd' ∷ []

abbrev pub active_word : Bytes
active_word = b'a' ∷ b'c' ∷ b't' ∷ b'i' ∷ b'v' ∷ b'e' ∷ []
