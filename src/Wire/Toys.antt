-- ===== src/Wire/Toys.antt =====
-- Small stand-ins for AES-GCM, SHA-256 and JSON, which meet the laws that are assumed of them: for
-- the runs.
use go_cfc.Base.{
  ℕ, zero, suc, ◌-◌, ◌%◌, ◌≡◌, refl, ap, true, List, [], ◌∷◌, ◌++◌, arith, ◌==◌, ◌&&◌, Bytes,
  length, take, if◌then◌else◌, none, some, String, str_eq, eq_iff, length-append,
}
use go_cfc.Base.Int.{ℤ, pos, negsuc, int_eq}
use go_cfc.Base.Lists.{take-append}
use go_cfc.Wire.Errors.{ok, Result}
use go_cfc.Wire.Cipher.{Gcm, GcmLaws}
use go_cfc.Wire.Message.{Data, bytes, value, Json, JsonLaws, Key}
use go_cfc.Wire.Message.Sending.{Ready}

abbrev pub replicate : ℕ → ℕ → Bytes
replicate zero b = []
replicate (suc n) b = b ∷ replicate n b

length-replicate : (n b : ℕ) → length (replicate n b) ≡ n
length-replicate zero b = refl
length-replicate (suc n) b = ap suc (length-replicate n b)

-- The sealed text is the text with 16 bytes behind it; the hash repeats the length.
abbrev pub toy : Gcm
toy = record {
  new_cipher = λ key. length key == 32;
  nonce_size = 12;
  seal = λ key nonce plain. plain ++ replicate 16 7;
  unseal = λ key nonce c. some (take (length c - 16) c);
  read_full = λ n. some (replicate 12 (n % 256));
  sum256 = λ b. replicate 32 (length b % 256);
}

pub toy-laws : GcmLaws toy
toy-laws = record {
  nonce_size_lem = refl;
  unseal-seal = λ key nonce plain.
      ap some (
        take-append _ plain (replicate 16 7) (omega (arith, length-append plain (replicate 16 7))));
  length-seal = λ key nonce plain. length-append plain (replicate 16 7);
  length-read_full = λ n nonce e. ground (arith, length-replicate 12 (n % 256));
  length-sum256 = λ b. length-replicate 32 (length b % 256);
}

pub data Toy : Type 0 where
  object text : Bytes → Toy

-- Only messages of one header and id, with the code 200, can be written, and they are their data.
abbrev pub toy_json : (header id : String) → Json
toy_json header id = record {
  J = Toy;
  mash = object;
  tagged = λ v. elim v [ object s ↦ some (text s) | text s ↦ none ];
  as_text = λ v. elim v [ text s ↦ some s | object s ↦ none ];
  marshal = λ m. elim m.payload [
    | value (object s) ↦
        if str_eq m.header header && (str_eq m.id id && int_eq m.code (pos 200))
        then some s
        else none
    | _ ↦ none
  ];
  unmarshal =
      λ b. some (record { header = header; code = pos 200; payload = value (object b); id = id });
  encode64 = λ b. b;
  decode64 = λ b. some b;
}

int_eq→eq : (a b : ℤ) → int_eq a b ≡ true → a ≡ b
int_eq→eq (pos a) (pos b) h = ground arith
int_eq→eq (negsuc a) (negsuc b) h = ground arith
int_eq→eq _ _ h = cc

read_back :
    (h i header id : String) (code : ℤ) (d : Data Toy) (b : Bytes)
    → (toy_json h i).marshal (record { header = header; code = code; payload = d; id = id })
      ≡ some b
    → (toy_json h i).unmarshal b
      ≡ some (record { header = header; code = code; payload = d; id = id })
read_back h i header id code (value (object s)) b e =
    ground (arith, eq_iff header h, eq_iff id i, int_eq→eq code (pos 200))
read_back h i header id code (value (text s)) b e = cc
read_back h i header id code (bytes s) b e = cc

pub toy_json-laws : (header id : String) → JsonLaws (toy_json header id)
toy_json-laws header id = record {
  as_text-tagged-mash = λ str. (text str, refl, refl);
  unmarshal-marshal = λ m v b e h. read_back header id m.header m.id m.code m.payload b h;
  decode64-encode64 = λ b. refl;
}

abbrev pub shared_key : Key
shared_key = record { key = replicate 32 1; key_b = replicate 32 1 }

pub toy-Ready : Ready toy shared_key.key_b
toy-Ready = record { accepted = refl; drawn = λ n. (replicate 12 (n % 256), refl) }

abbrev pub packets_of : Result (List Bytes) → List Bytes
packets_of (ok ps) = ps
packets_of _ = []
