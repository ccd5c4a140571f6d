-- ===== src/Krouter/Tests.antt =====
-- `krouter k.conf` and `krouter -t 2 k.conf`, with a file that gives a port and a level of the log.
use ketamarouter.Base.{Bool, true, ℕ, ◌≡◌, refl, List, [], ◌∷◌, Bytes, codes, arith, Option}
use ketamarouter.Base.Decimal.{atoi}
use ketamarouter.Str.{Str, strncmp_eq}
use ketamarouter.Session.{Command}
use ketamarouter.Ketama.Route.Samples.{
  small_digest, one_round, one_round-Rounds, insertion, by_insertion,
}
use ketamarouter.Command.Tests.{by_function}
use ketamarouter.Setting.{strncasecmp_eq, level_of_text}
use ketamarouter.Setting.Tests.{by_list, by_list-IsKeyFile, no_blocks, readable, sample}
use ketamarouter.Krouter.{
  Found, threads, Running, Course, ends, runs, main, read_options, print_help,
}
use ketamarouter.Krouter.Starts.{RunsWith, main-runs}

-- `getopt` as GNU has it on the two command lines: the options come first.
abbrev getopt : List Bytes → List Found × List Bytes
getopt (c ∷ a ∷ n ∷ f ∷ []) = (threads n ∷ [], c ∷ a ∷ n ∷ f ∷ [])
getopt argv = ([], argv)

abbrev listens : ℕ → Bool
listens port = true

abbrev Table : Type 0
Table = Str → Option Command

abbrev course : List Bytes → Course Table
course argv =
    main by_list by_function small_digest one_round insertion listens getopt readable argv no_blocks

-- No argument at all ends with status 0.
no_argument : course (codes "krouter" ∷ []) ≡ ends 0 (print_help (codes "krouter"))
unfolding main
no_argument = refl

abbrev with_threads : List Bytes
with_threads = codes "krouter" ∷ codes "-t" ∷ codes "2" ∷ codes "k.conf" ∷ []

-- The first argument is then taken for the file.
main-runs_example :
    (r : Running Table) × (course with_threads ≡ runs r)
    × RunsWith by_list by_function small_digest one_round by_insertion listens sample 2 2 r
unfolding read_options level_of_text strncasecmp_eq strncmp_eq atoi
main-runs_example =
    main-runs by_list by_function small_digest one_round by_insertion listens getopt readable
      (codes "krouter") (codes "-t") (codes "-t") (codes "2" ∷ codes "k.conf" ∷ []) no_blocks sample
      2 2 by_list-IsKeyFile one_round-Rounds (omega arith) refl refl refl refl refl refl
      (omega arith) refl

started_run :
    (r : Running Table) × (course (codes "krouter" ∷ codes "k.conf" ∷ []) ≡ runs r)
    × RunsWith by_list by_function small_digest one_round by_insertion listens sample 0 2 r
unfolding read_options level_of_text strncasecmp_eq strncmp_eq
started_run =
    main-runs by_list by_function small_digest one_round by_insertion listens getopt readable
      (codes "krouter") (codes "k.conf") (codes "k.conf") [] no_blocks sample 0 2 by_list-IsKeyFile
      one_round-Rounds (omega arith) refl refl refl refl refl refl (omega arith) refl
