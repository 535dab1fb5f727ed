-- ===== src/JobIdentifier.antt =====
-- LookAheadJobIdentifier (include/lookahead_job.hpp, src/lookahead_job.cpp): a human's and a
-- robot's segment, the key of the job registry.
pub mod Order
mod Tests
use opera.Prelude.{ℕ, Bool, true, false, ltb, ◌==◌, ◌&&◌, if◌then◌else◌}
use opera.Prelude.Texts.{Text, text_eq, text_lt}

pub record LookAheadJobIdentifier : Type 0 where
  pub human : Text
  pub human_segment : ℕ
  pub robot : Text
  pub robot_segment : ℕ

-- operator==
unfoldable pub id_eq : LookAheadJobIdentifier → LookAheadJobIdentifier → Bool
id_eq id1 id2 =
    text_eq id1.human id2.human
    && (id1.human_segment == id2.human_segment
        && (text_eq id1.robot id2.robot && id1.robot_segment == id2.robot_segment))

-- operator<
unfoldable pub id_lt : LookAheadJobIdentifier → LookAheadJobIdentifier → Bool
id_lt id1 id2 =
    if text_lt id1.human id2.human
    then true
    else if text_lt id2.human id1.human
    then false
    else if ltb id1.human_segment id2.human_segment
    then true
    else if ltb id2.human_segment id1.human_segment
    then false
    else if text_lt id1.robot id2.robot
    then true
    else if text_lt id2.robot id1.robot
    then false
    else if ltb id1.robot_segment id2.robot_segment
    then true
    else false
