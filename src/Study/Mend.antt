-- ===== src/Study/Mend.antt =====
-- `LitheralStudyService.regenerate_block` from end to end.
use thesdel.Base.{ℕ, Bool, Option, String, List, ◌==◌}
use thesdel.Errors.{Result}
use thesdel.Mongo.{Mongo}
use thesdel.Redis.{Redis}
use thesdel.Usage.{Period}
use thesdel.Study.Defs.{BusyInterval}
use thesdel.Study.Service.{StudyPlan, StudyDb, RegenerateBlockResponse}
use thesdel.Study.OwnBlock.{used, others, IsOwn, IsTaken, IsUnread, Mends}

module _ (mongo : Mongo) (redis : Redis) where
  open mongo use {docs, find_one_lem, update_one, docs-update_one}

  module _ (p : Period) (regenerate_cap user_id : ℕ) (s : StudyDb mongo redis)
      (object_id : String → Option ℕ) (block_id : String) where
    abbrev Own : StudyPlan → Type 0
    Own d = IsOwn mongo redis p regenerate_cap user_id s object_id block_id d

    abbrev Taken : StudyPlan → List BusyInterval → Type 0
    Taken d taken = IsTaken mongo redis p regenerate_cap user_id s object_id block_id d taken

    abbrev Unread : StudyPlan → Type 0
    Unread d = IsUnread mongo redis p regenerate_cap user_id s object_id block_id d

    abbrev Ends : Result RegenerateBlockResponse × StudyDb mongo redis → Type 0
    Ends out = Mends mongo redis p regenerate_cap user_id s object_id block_id out

    abbrev used_in : StudyDb mongo redis → ℕ
    used_in t = used mongo redis p regenerate_cap user_id s object_id block_id t

    abbrev is_it : ℕ → StudyPlan → Bool
    is_it i b = b.id == i

    abbrev others_in : ℕ → StudyDb mongo redis → List StudyPlan
    others_in i t = others mongo redis p regenerate_cap user_id s object_id block_id i t
