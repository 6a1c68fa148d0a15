-- ===== src/Examples/Rotating.antt =====
-- src/internal/pinnedtls: a client that rotates its key. Base64 is a text cut at 32 characters, the
-- hash is the text itself.
use air_gap.Common.{Bytes, ◌≡◌, refl, [], ◌∷◌, true, some, arith, take}
use air_gap.Common.Text.{codes}
use air_gap.Common.Maps.{bytes_beq, lookup}
use air_gap.Common.Members.{any}
use air_gap.PinnedTls.{Manager, reset_idle}
use air_gap.PinnedTls.Aging.{new_manager, exclude_aged}
use air_gap.PinnedTls.Rotation.{
  RotationMessage, Committing, Disk, commit_rotation, find_record, keeps_active, adds_nothing,
}
use air_gap.PinnedTls.Rotation.Wire.{
  Codec, rotation_id, is_binding, valid_fingerprint, is_sound_peer,
}
use air_gap.PinnedTls.Rotation.Client.{
  begin_message, request_message, request_rotation, ExchangeTimes,
}
use air_gap.PinnedTls.Rotation.Completing.{
  serve, has_no_error, challenge_message, request_rotation-commits,
}
use air_gap.Examples.PinnedKeys.{pin, verified, empty_journal}

abbrev toy_codec : Codec
toy_codec = record {
  decode_base64 = λ s. some (take 32 s);
  decode_base64_strict = λ s. some s;
  encode_base64 = λ s. s;
  hash = λ s. s;
  hex = λ s. s;
  payload_size = λ m. 1000;
  read_json = λ m. m;
}

abbrev old_print : Bytes
old_print = codes "SHA256:11111111222222223333333344444444"

abbrev new_print : Bytes
new_print = codes "SHA256:55555555666666667777777788888888"

abbrev id_of_both : Bytes
id_of_both = rotation_id toy_codec old_print new_print

abbrev nonce_text : Bytes
nonce_text = codes "MDEyMzQ1Njc4OTAxMjM0NTY3ODkwMTIzNDU2Nzg5MDE="

abbrev signed : RotationMessage → Bytes
signed message = codes "p"

abbrev plant : Bytes
plant = codes "plant"

abbrev four_seconds : ExchangeTimes
four_seconds = record {
  began = 10;
  begin_handled = 1000000000;
  challenge_read = 2000000000;
  request_handled = 3000000000;
  response_read = 4000000000;
}

abbrev one_key : Manager
one_key = new_manager (pin old_print plant ∷ []) 1

abbrev one_key_disk : Disk
one_key_disk = record empty_journal {
  trust = some (pin old_print plant ∷ []);
  trust_again = some (pin new_print plant ∷ pin old_print plant ∷ []);
}

abbrev commits_to_disk : RotationMessage → Committing
commits_to_disk message = commit_rotation verified message one_key_disk true 9 one_key

request_rotation-commits_example :
    request_rotation toy_codec new_print signed
      (serve (λ e. codes "error") commits_to_disk (pin old_print plant) nonce_text four_seconds)
      four_seconds
      (begin_message id_of_both old_print new_print)
    ≡ has_no_error
        (commits_to_disk (
          request_message new_print signed
            (challenge_message id_of_both old_print new_print plant nonce_text))).error
unfolding is_binding valid_fingerprint rotation_id is_sound_peer bytes_beq any
request_rotation-commits_example =
    request_rotation-commits toy_codec (λ e. codes "error") commits_to_disk id_of_both old_print
      new_print nonce_text new_print (pin old_print plant).1 signed four_seconds refl refl refl refl
      refl refl refl (λ m. refl) (omega arith, refl) (omega arith, refl) (omega arith, refl)
      (omega arith, refl) (omega arith) (omega arith) (omega arith) (omega arith)

committed :
    has_no_error
      (commits_to_disk (
        request_message new_print signed
          (challenge_message id_of_both old_print new_print plant nonce_text))).error
    ≡ true
unfolding commit_rotation lookup reset_idle bytes_beq find_record keeps_active exclude_aged
    adds_nothing rotation_id
committed = refl
