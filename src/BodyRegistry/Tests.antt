-- ===== src/BodyRegistry/Tests.antt =====
-- Runs of the body registry.
use opera.Prelude.{◌≡◌, refl, [], ◌∷◌, true, ◌||◌, ok, err, runtime_error}
use opera.Prelude.Texts.{Text, bytes, text_eq}
use opera.Prelude.Millimetres.{Millimetres, mm}
use opera.Bodies.{construct, construct_loop, insert_id, contains_id}
use opera.Prelude.Maps.{has_key, insert_key}
use opera.BodyRegistry.{
  BodyPresentationMessage, BodyRegistry, contains, insert, insert_human, remove,
}
use opera.BodyRegistry.Contents.{IsSeparate, insert-contains}

abbrev nobody : BodyRegistry Millimetres
nobody = record { humans = []; robots = [] }

abbrev person : BodyPresentationMessage Millimetres
person = record {
  id = bytes "h1";
  is_human = true;
  message_frequency = 0;
  segment_pairs = (bytes "0", bytes "1") ∷ [];
  thicknesses = mm 5 ∷ [];
}

abbrev with_person : BodyRegistry Millimetres
with_person = record {
  humans =
      (
        bytes "h1",
        record {
          body = record {
            id = bytes "h1";
            keypoint_ids = bytes "0" ∷ bytes "1" ∷ [];
            segments =
                record { index = 0; head_id = bytes "0"; tail_id = bytes "1"; thickness = mm 5 }
                ∷ [];
          };
          history = record { instances = [] };
        },
      )
      ∷ [];
  robots = [];
}

nobody-IsSeparate : IsSeparate nobody
unfolding IsSeparate has_key
nobody-IsSeparate j = refl

person-inserted : insert nobody person ≡ ok with_person
unfolding insert insert_human contains has_key insert_key construct construct_loop insert_id
    contains_id text_eq
person-inserted = refl

insert-contains_example :
    ((j : Text) → contains with_person j ≡ text_eq (bytes "h1") j || contains nobody j)
    × IsSeparate with_person
insert-contains_example =
    insert-contains nobody with_person person nobody-IsSeparate person-inserted

remove-unknown : remove nobody (bytes "h2") ≡ err runtime_error
unfolding remove has_key
remove-unknown = refl
