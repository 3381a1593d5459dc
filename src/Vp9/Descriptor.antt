-- ===== src/Vp9/Descriptor.antt =====
-- The payload descriptor of src/codec_vp9.cpp, built and read back.
use srtc.Common.{
  ℕ, ◌+◌, ◌/◌, ◌%◌, ◌^◌, ◌<◌, ◌≡◌, refl, ap, ◌∙◌, List, ◌∷◌, ◌++◌, Option, some, Bool, true, false,
  arith,
}
use srtc.Common.{==_true}
use srtc.Vp9.{
  PayloadDescriptor, flag, read_picture_id, skip_rest, describe, parse_payload_descriptor,
  descriptor_flags, build_payload_descriptor,
}

read_picture_id-long :
    (id : ℕ) (payload : List ℕ)
    → id < 2 ^ 15
    → read_picture_id true ((2 ^ 7 + id / 2 ^ 8 % 2 ^ 7) ∷ id % 2 ^ 8 ∷ payload)
      ≡ some (id, payload)
unfolding read_picture_id flag
read_picture_id-long id payload h =
    rw (==_true ((2 ^ 7 + id / 2 ^ 8 % 2 ^ 7) / 2 ^ 7 % 2) 1 (omega arith))
      (ap {A = ℕ} {B = Option (ℕ × List ℕ)} (λ (n : ℕ). some (n, payload)) (omega arith))

descriptor_flags-long :
    (starts ends inter : Bool) → flag (descriptor_flags starts ends inter) 7 ≡ true
unfolding flag descriptor_flags
descriptor_flags-long true true true = refl
descriptor_flags-long true true false = refl
descriptor_flags-long true false true = refl
descriptor_flags-long true false false = refl
descriptor_flags-long false true true = refl
descriptor_flags-long false true false = refl
descriptor_flags-long false false true = refl
descriptor_flags-long false false false = refl

described :
    (starts ends inter : Bool) (id : ℕ) (payload : List ℕ)
    → describe (descriptor_flags starts ends inter) (some (id, payload))
      ≡ some (
        record {
          picture_id_present = true;
          inter_picture = inter;
          start_of_frame = starts;
          end_of_frame = ends;
          picture_id = id;
        },
        payload,
      )
unfolding describe descriptor_flags flag skip_rest
described true true true id payload = refl
described true true false id payload = refl
described true false true id payload = refl
described true false false id payload = refl
described false true true id payload = refl
described false true false id payload = refl
described false false true id payload = refl
described false false false id payload = refl

-- The descriptor is read back as it was built, and the payload behind it stays whole, for a picture id of 15 bits.
pub parse_payload_descriptor-build_payload_descriptor :
    (starts ends inter : Bool) (id : ℕ) (payload : List ℕ)
    → id < 2 ^ 15
    → parse_payload_descriptor (build_payload_descriptor starts ends inter id ++ payload)
      ≡ some (
        record {
          picture_id_present = true;
          inter_picture = inter;
          start_of_frame = starts;
          end_of_frame = ends;
          picture_id = id;
        },
        payload,
      )
parse_payload_descriptor-build_payload_descriptor starts ends inter id payload h =
    unfold parse_payload_descriptor in
    unfold build_payload_descriptor in
    (ap {A = Bool} {B = Option (PayloadDescriptor × List ℕ)}
        (λ (long : Bool).
          describe (descriptor_flags starts ends inter)
            (read_picture_id long ((2 ^ 7 + id / 2 ^ 8 % 2 ^ 7) ∷ id % 2 ^ 8 ∷ payload)))
        (descriptor_flags-long starts ends inter)
      ∙ ap {A = Option (ℕ × List ℕ)} {B = Option (PayloadDescriptor × List ℕ)}
          (describe (descriptor_flags starts ends inter)) (read_picture_id-long id payload h)
      ∙ described starts ends inter id payload)
