-- ===== src/Docker/Journal.antt =====
-- A journal of what is done to containers and messages. `recorded` keeps it for any daemon: it notes each
-- call that changes a container and returns, and changes no answer.
use dynamic_conversion_servi.Prelude.{String, List, [], ◌∷◌, ◌++◌}
use dynamic_conversion_servi.Prelude.Action.{Result, ok, err, Action}
use dynamic_conversion_servi.Docker.{CreateOptions, Daemon}

-- A container that was created, with the id that the daemon gave it.
pub record Creation : Type 0 where
  pub options : CreateOptions
  pub id : String

pub record Journal : Type 0 where
  pub creations : List Creation
  pub starts : List String
  pub stops : List String
  pub deletes : List String

pub record Recorded (W : Type 0) : Type 0 where
  pub journal : Journal
  pub world : W

abbrev pub blank : Journal
blank = record { creations = []; starts = []; stops = []; deletes = [] }

-- What each call notes.
abbrev pub note_creation : CreateOptions → String → Journal → Journal
note_creation options id j = record j {
  creations = j.creations ++ record { options = options; id = id } ∷ [];
}

abbrev pub note_start : String → Unit {0} → Journal → Journal
note_start id _ j = record j { starts = j.starts ++ id ∷ [] }

abbrev pub note_stop : String → Unit {0} → Journal → Journal
note_stop id _ j = record j { stops = j.stops ++ id ∷ [] }

abbrev pub note_delete : String → Unit {0} → Journal → Journal
note_delete id _ j = record j { deletes = j.deletes ++ id ∷ [] }

module _ {W E A : Type 0} where
  abbrev pub written : (A → Journal → Journal) → Journal → Result E A × W → Result E A × Recorded W
  written g j (ok a, w) = (ok a, record { journal = g a j; world = w })
  written g j (err e, w) = (err e, record { journal = j; world = w })

  abbrev pub noted : (A → Journal → Journal) → Action W E A → Action (Recorded W) E A
  noted g m s = written g s.journal (m s.world)

  abbrev pub unnoted : Action W E A → Action (Recorded W) E A
  unnoted = noted λ a j. j

abbrev pub recorded : {W E : Type 0} → Daemon W E → Daemon (Recorded W) E
recorded daemon = record {
  list_images = λ image. unnoted (daemon.list_images image);
  pull_image = λ image tag. unnoted (daemon.pull_image image tag);
  create = λ options. noted (note_creation options) (daemon.create options);
  start = λ id. noted (note_start id) (daemon.start id);
  list = unnoted daemon.list;
  status_of = λ id. unnoted (daemon.status_of id);
  stop = λ id. noted (note_stop id) (daemon.stop id);
  delete = λ id. noted (note_delete id) (daemon.delete id);
  nanoid = λ n. unnoted (daemon.nanoid n);
}
