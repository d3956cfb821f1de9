-- ===== src/SealedFile/Tests.antt =====
-- The theorems of sealed_file.rs and bounded_blob.rs at concrete inputs.
use xivlantern_dalamud.Prelude.{
  ◌≤◌, ◌≡◌, refl, true, none, some, [], ◌∷◌, ◌++◌, arith, length, bytes_beq,
}
use xivlantern_dalamud.Bytes.{Bytes, be_bytes, be_value, be_value_from}
use xivlantern_dalamud.Text.{strip_prefix}
use xivlantern_dalamud.Error.{ok, protocol_version}
use xivlantern_dalamud.ChannelHistory.Tests.{toy, replicate}
use xivlantern_dalamud.Proto.{signed_envelope, is_authentic}
use xivlantern_dalamud.Proto.Sealed.{
  sealed_context, open_sealed, open_body, open_exact, open_payload,
}
use xivlantern_dalamud.Proto.Opened.{IsOpened}
use xivlantern_dalamud.Proto.SealedRoundTrip.{IsSealing, IsEnveloped}
use xivlantern_dalamud.Proto.Tests.{plain_envelopes, toy_cipher, den, tag}
use xivlantern_dalamud.SealedFile.{file_domain, max_file_bytes, check_offer, decode}
use xivlantern_dalamud.SealedFile.Checked.{decode_checked}
use xivlantern_dalamud.SealedFile.Download.{Steps, finish, read_content, read_tree, fetch}

abbrev picture : Bytes
picture = 137 ∷ 80 ∷ 78 ∷ 71 ∷ []

abbrev nonce : Bytes
nonce = replicate 24 6

abbrev ciphertext : Bytes
ciphertext =
    picture ++ tag (den.key ++ (nonce ++ ((file_domain ++ (den.topic ++ toy.public 5)) ++ picture)))

picture-IsSealing :
    IsSealing toy_cipher den.key nonce
      (sealed_context file_domain den.topic (toy.public 5))
      picture
      ciphertext
unfolding sealed_context bytes_beq
picture-IsSealing = record { encrypts = refl; decrypts = refl; size = refl }

picture-IsEnveloped :
    IsEnveloped plain_envelopes
      (signed_envelope toy plain_envelopes 5 (file_domain ++ (nonce ++ ciphertext)))
unfolding signed_envelope be_bytes be_value be_value_from
picture-IsEnveloped = record { reads = λ rest. refl; size = omega arith }

abbrev packet : Bytes
packet = plain_envelopes.to_stdvec (record {
  version = protocol_version;
  from = toy.public 5;
  body = file_domain ++ (nonce ++ ciphertext);
  sig = toy.sign 5 (file_domain ++ (nonce ++ ciphertext));
})

decodes : decode toy plain_envelopes toy_cipher den (toy.public 5) packet 4 ≡ ok picture
unfolding decode check_offer open_payload open_exact open_body open_sealed is_authentic
    sealed_context strip_prefix be_bytes be_value be_value_from bytes_beq
decodes = refl

decode_checked_example :
    (length picture ≡ 4)
    × (4 ≤ max_file_bytes)
    × IsOpened toy plain_envelopes toy_cipher den packet file_domain max_file_bytes
        (toy.public 5)
        picture
decode_checked_example =
    decode_checked toy plain_envelopes toy_cipher den (toy.public 5) packet picture 4 decodes

abbrev answer : Steps
answer = record {
  connected = some true;
  tree_size = some 4;
  content = some (picture, true);
  closed = true;
}

fetches : fetch answer 4 100 ≡ some picture
unfolding fetch read_tree read_content finish
fetches = refl

-- A tree of another size is refused before its content.
refuses_other_size : fetch answer 5 100 ≡ none
unfolding fetch read_tree read_content
refuses_other_size = refl
