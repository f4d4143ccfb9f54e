-- ===== src/Tests/Clients.antt =====
-- The theorems on the clients, with a wire format of numbers: a name's components with their bytes
-- one higher and a zero behind each, the other fields as they are.
use fast_repo.Prelude.{
  ℕ, zero, suc, ◌≡◌, ◌<◌, refl, ap, sym, ◌∙◌, Bool, true, false, Option, some, none, List, [], ◌∷◌,
  ◌++◌, length, arith, ℕ_discrete,
}
use fast_repo.Prelude.Bytes.{Bytes, bytes_discrete}
use fast_repo.Prelude.StdMap
use mathlib.Core.List.{append_assoc, append-nil}
use fast_repo.Handles.Base.{Parameter, Response, new_response, append_components}
use fast_repo.Patterns.Fetch
use fast_repo.Patterns.Fetch.{Build, Pattern, ndnrtc_pattern}
use fast_repo.Patterns.Handle.{PatternHandle}
use fast_repo.Clients.Commands.{Encoding, pattern_name}
use fast_repo.Clients.Wire.{EncodingLaws}
use fast_repo.Clients.Session.{Session, fetch_then_cancel}
use fast_repo.Tests.Store.{sorted_store, empty_store}
use fast_repo.Tests.Names.{ListName, list_names, list_name_discrete}
use fast_repo.Tests.Storing.{name_a, name_ab, engine}

abbrev encode_word : Bytes → Bytes → Bytes
encode_word [] rest = 0 ∷ rest
encode_word (b ∷ word) rest = suc b ∷ encode_word word rest

abbrev encode_words : List Bytes → Bytes
encode_words [] = []
encode_words (word ∷ words) = encode_word word (encode_words words)

abbrev words_from : Bytes → Bytes → List Bytes
words_from [] word = []
words_from (zero ∷ s) word = word ∷ words_from s []
words_from (suc b ∷ s) word = words_from s (word ++ b ∷ [])

words_from-encode_word :
    (x rest word : Bytes) → words_from (encode_word x rest) word ≡ (word ++ x) ∷ words_from rest []
words_from-encode_word [] rest word = ap (λ w. w ∷ words_from rest []) (sym (append-nil word))
words_from-encode_word (b ∷ x) rest word =
    words_from-encode_word x rest (word ++ b ∷ [])
    ∙ ap (λ w. w ∷ words_from rest []) (append_assoc word (b ∷ []) x)

words_from-encode_words : (xs : List Bytes) → words_from (encode_words xs) [] ≡ xs
words_from-encode_words [] = refl
words_from-encode_words (x ∷ xs) =
    words_from-encode_word x (encode_words xs) [] ∙ ap (◌∷◌ x) (words_from-encode_words xs)

abbrev decode_words : Bytes → Option (List Bytes)
decode_words s = some (words_from s [])

abbrev encode_parameter : Parameter → Bytes
encode_parameter p =
    p.start_block_id
    ∷ p.end_block_id
    ∷ p.process_id
    ∷ p.max_interest_num
    ∷ p.watch_timeout
    ∷ p.watch_status
    ∷ p.interest_lifetime
    ∷ encode_words p.name

abbrev decode_parameter : Bytes → Option Parameter
decode_parameter (a ∷ b ∷ c ∷ d ∷ e ∷ f ∷ g ∷ s) = some (record {
  name = words_from s [];
  start_block_id = a;
  end_block_id = b;
  process_id = c;
  max_interest_num = d;
  watch_timeout = e;
  watch_status = f;
  interest_lifetime = g;
})
decode_parameter _ = none

abbrev decode_numbers : Bytes → Bool × Response
decode_numbers (a ∷ b ∷ c ∷ d ∷ e ∷ f ∷ []) = (
  false,
  record {
    process_id = a;
    status_code = b;
    start_block_id = c;
    end_block_id = d;
    insert_num = e;
    delete_num = f;
  },
)
decode_numbers _ = (true, new_response)

abbrev encoding : Encoding list_names
encoding = record {
  encode_name = encode_words;
  encode = encode_parameter;
  value = λ x. x;
  signed = λ p. p ++ pattern_name ∷ [];
  decode_response = decode_numbers;
  encode_response = λ x.
      x.process_id ∷ x.status_code ∷ x.start_block_id ∷ x.end_block_id ∷ x.insert_num ∷ x.delete_num
      ∷ [];
}

-- Lists under appending one element.
length-append_last : (p : ListName) (x : Bytes) → length (p ++ x ∷ []) ≡ suc (length p)
length-append_last [] x = refl
length-append_last (y ∷ p) x = ap suc (length-append_last p x)

get_last : (p : ListName) (x : Bytes) → list_names.get (p ++ x ∷ []) (length p) ≡ some x
get_last [] x = refl
get_last (y ∷ p) x = get_last p x

get_before :
    (p : ListName) (x : Bytes) (i : ℕ)
    → i < length p
    → list_names.get (p ++ x ∷ []) i ≡ list_names.get p i
get_before [] x i h = absurd (omega arith)
get_before (y ∷ p) x zero h = refl
get_before (y ∷ p) x (suc i) h = get_before p x i (omega arith)

laws : EncodingLaws list_names encoding decode_parameter decode_words
laws = record {
  size_empty = refl;
  size-append_component = length-append_last;
  get_last = get_last;
  get_before = get_before;
  value-component = λ s. refl;
  get_signed = λ p i h. get_before p pattern_name i h;
  decode-encode =
      λ p. ap (λ name. some (record p { name = name })) (words_from-encode_words p.name);
  decode_response-encode_response = λ x. refl;
  decode_name-encode_name = λ xs. ap some (words_from-encode_words xs);
}

abbrev build : Build ListName
build = record {
  have_ndnrtc = true;
  have_cnl = false;
  name_api_version = b'3' ∷ [];
  extract_info = λ name. true;
}

abbrev no_patterns : PatternHandle list_names sorted_store build decode_parameter decode_words
no_patterns = record { storage = engine empty_store; patterns = []; objects = []; next = 0 }

fetch_then_cancel_example :
    Session list_names encoding decode_parameter decode_words laws sorted_store build no_patterns
      name_a name_ab 0
unfolding append_components StdMap.find StdMap.insert StdMap.erase Fetch.create Fetch.construct
    Fetch.supported list_name_discrete bytes_discrete ℕ_discrete
fetch_then_cancel_example =
    fetch_then_cancel list_names encoding decode_parameter decode_words laws sorted_store build
      no_patterns name_a name_ab 0 (ndnrtc_pattern none) refl refl
