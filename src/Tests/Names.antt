-- ===== src/Tests/Names.antt =====
-- Names as lists of components, and packets as their URI, a zero byte and their content.
use fast_repo.Prelude.{
  ℕ, zero, suc, ◌≡◌, refl, Bool, true, false, Option, none, some, List, [], ◌∷◌, ◌++◌, arith, ite,
  length, if◌then◌else◌, ◌==◌,
}
use fast_repo.Prelude.Bytes.{Bytes, bytes_discrete}
use fast_repo.Ndn.{Ndn}
use fast_repo.Storage.Written.{PacketLaws}

abbrev pub ListName : Type 0
ListName = List Bytes

unfoldable pub list_name_discrete : Discrete ListName
list_name_discrete = hlevel bytes_discrete

-- The components between the slashes; `word` is the one being read.
abbrev split_from : Bytes → Bytes → List Bytes
split_from [] word = word ∷ []
split_from (c ∷ s) word =
    let next = split_from s [] in
    let same = split_from s (word ++ c ∷ []) in if c == b'/' then word ∷ next else same

abbrev pub split : Bytes → List Bytes
split s = split_from s []

abbrev non_empty : List Bytes → List Bytes
non_empty [] = []
non_empty ([] ∷ cs) = non_empty cs
non_empty ((x ∷ c) ∷ cs) = (x ∷ c) ∷ non_empty cs

abbrev pub uri : ListName → Bytes
uri [] = []
uri (c ∷ cs) = b'/' ∷ (c ++ uri cs)

abbrev name_part : Bytes → Bytes
name_part [] = []
name_part (c ∷ s) = let rest = name_part s in if c == 0 then [] else c ∷ rest

abbrev content_part : Bytes → Bytes
content_part [] = []
content_part (c ∷ s) = let rest = content_part s in if c == 0 then s else rest

abbrev pub begins : ListName → ListName → Bool
begins [] q = true
begins (c ∷ p) [] = false
begins (c ∷ p) (d ∷ q) = ite (bytes_discrete c d) (begins p q) false

abbrev component_at : ListName → ℕ → Option Bytes
component_at [] i = none
component_at (c ∷ cs) zero = some c
component_at (c ∷ cs) (suc i) = component_at cs i

abbrev pub list_names : Ndn
list_names = record {
  Name = ListName;
  Component = Bytes;
  Data = Bytes;
  MetaInfo = Unit {0};
  Content = Bytes;
  Signature = Bytes;
  name_discrete = list_name_discrete;
  empty_name = [];
  of_uri = λ s. non_empty (split s);
  to_uri = uri;
  size = length;
  append = λ p q. p ++ q;
  append_component = λ p c. p ++ c ∷ [];
  get = component_at;
  is_prefix_of = begins;
  component = λ c. c;
  from_escaped_string = λ c. c;
  make_data = λ name meta content signature. uri name ++ 0 ∷ content;
  data_name = λ d. non_empty (split (name_part d));
  meta_info = λ d. tt;
  content = content_part;
  digest_signature = λ bits. bits;
  digest_size = 32;
  wire_encode = λ d. d;
  wire_decode = λ s. some s;
}

pub packet_laws : PacketLaws list_names
packet_laws = record { decode_encode = λ d. refl }

pub begins_refl : (p : ListName) → begins p p ≡ true
begins_refl [] = refl
begins_refl (c ∷ p) = ground (arith, begins_refl p)
