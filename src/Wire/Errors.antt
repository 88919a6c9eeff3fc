-- ===== src/Wire/Errors.antt =====
-- The errors of tool/cMsgErr.go and of the calls on the wire, and Go's (value, error) pairs.
use go_cfc.Base.{Bool, true, false, ◌≡◌, refl}

pub data Error : Type 0 where
  -- crypto/aes and crypto/cipher, io.ReadFull(rand.Reader), encoding/json
  key_size open_failed no_randomness bad_json : Error
  -- bufio.Reader.Peek and Discard
  eof buffer_full : Error
  ciphertext_too_short empty_data : Error
  -- CheckConnMsgHeaderAndCode, where an error is needed
  unexpected_message : Error
  read_c_skip_to_fast_conn read_c_protocol_is_not_go_cfc : Error
  read_c_msg_lens_too_short read_c_msg_lens_too_long read_c_msg_hash_check_failed : Error

-- `panic` is a Go panic. `stuck` is no Go value: the fuel of a loop ran out.
pub data Result {ℓ} (A : Type ℓ) : Type ℓ where
  ok : A → Result A
  err : Error → Result A
  panic : Result A
  stuck : Result A

infixl 5 ◌>>=◌
infixl 5 ◌>>◌
-- Whatever is not a value ends the function that calls.
abbrev pub ◌>>=◌ {ℓ κ} : {X : Type ℓ} {Y : Type κ} (m : Result X) (next : X → Result Y) → Result Y
panic >>= next = panic
stuck >>= next = stuck
(err failure) >>= next = err failure
(ok x) >>= next = next x

abbrev pub ◌>>◌ {κ} : {Y : Type κ} (check : Result (Unit {0})) (next : Result Y) → Result Y
check >> next = check >>= λ checked. next

-- `if bad { return nil, e }`
abbrev pub fail_if : Bool → Error → Result (Unit {0})
fail_if true e = err e
fail_if false e = ok tt

-- `if err != nil { panic(err) }`
abbrev pub must {ℓ} : {A : Type ℓ} → Result A → Result A
must (ok a) = ok a
must (err e) = panic
must panic = panic
must stuck = stuck

-- Where a sequence gives a value, its first part gave one.
pub >>=-eq-ok {ℓ κ} :
    {X : Type ℓ} {Y : Type κ} (m : Result X) (next : X → Result Y) {y : Y}
    → (m >>= next) ≡ ok y
    → (x : X) × (m ≡ ok x) × (next x ≡ ok y)
>>=-eq-ok panic next e = cc
>>=-eq-ok stuck next e = cc
>>=-eq-ok (err failure) next e = cc
>>=-eq-ok (ok x) next e = (x, refl, e)
