-- ===== src/Machine.antt =====
-- What the program runs on: the machine, whose behaviour is a parameter, and the monad of Go
-- functions that may return an error, panic, or poll the machine for ever.
pub mod Bounds
pub mod Emits
pub mod Logged
pub mod Words
pub mod Files
pub mod Results
pub mod Polling
pub mod Runs
pub mod Sequence
pub mod Steady
pub mod Returns
pub mod Secrets
pub use Results.{
  Error, message, not_number, wrap, as_format, Panic, index_out_of_range, nil_dereference,
  type_assertion, raised,
}
pub use Results.{Outcome, ok, err, panic, hang}
use albius.Base.{ℕ, zero, suc, Bool, true, false, Option, none, some, List, [], ◌∷◌, ◌++◌, Text, ℤ}
use albius.Disk.Types.{Disk}

-- A child process: `sh -c command` with additions to the environment, or the same in a chroot.
pub data Process : Type 0 where
  shell : List Text → Text → Process
  chroot : Text → Text → Process

-- How a process ended: with status 0, with another status, or it could not be started.
pub data Exit : Type 0 where
  success : Exit
  exited : ℤ → Exit
  not_started : Text → Exit

pub record Completed : Type 0 where
  pub stdout : Text
  pub stderr : Text
  pub exit : Exit

-- os.Stat: the file is there, os.IsNotExist holds of the error, or it is another error.
pub data Stat : Type 0 where
  present : Stat
  absent : Stat
  unreadable : Text → Stat

-- os.ReadFile: the contents, or why they cannot be read.
pub data Read : Type 0 where
  contents : Text → Read
  not_read : Text → Read

-- os.ReadDir: the names of the entries, or why they cannot be read.
pub data Listing : Type 0 where
  names : List Text → Listing
  not_listed : Text → Listing

-- The machine. `patience` bounds how often the model polls it where the program polls without
-- an end; a program that would go on is `hang`. A change
-- of a file answers `none`, or why it failed. `decode_disk` is the decoding of a report of parted,
-- `range_order` the order in which Go ranges over a map, and `arch` is runtime.GOARCH.
pub record Platform : Type 1 where
  pub State : Type 0
  pub F64 : Type 0
  pub patience : ℕ
  pub exec : Process → State → Completed × State
  pub stat : Text → State → Stat × State
  pub read_file : Text → State → Read × State
  pub write_file : Text → Text → State → Option Text × State
  pub create_file : Text → State → Option Text × State
  pub append_file : Text → Text → State → Option Text × State
  pub remove_file : Text → State → Option Text × State
  pub make_dir : Text → State → Option Text × State
  pub list_dir : Text → State → Listing × State
  pub remove_all : Text → State → Option Text × State
  pub parse_float : Text → Option F64
  pub int_of_f64 : F64 → ℤ
  pub format_f : F64 → Text
  pub format_2f : F64 → Text
  pub decode_disk : Text → Option Disk
  pub range_order : List (Text × Text) → State → List (Text × Text) × State
  pub arch : Text

-- What the program did to the machine, in order; `called` is a call of a library that does
-- something to the machine, with the name of the function and its texts.
pub data Event : Type 0 where
  ran : Process → Event
  wrote : Text → Text → Event
  created : Text → Event
  appended : Text → Text → Event
  removed : Text → Event
  made_dir : Text → Event
  removed_all : Text → Event
  called : Text → List Text → Event

module _ ⦃P : Platform⦄ where
  pub record World : Type 0 where
    pub state : P.State
    pub log : List Event

  -- A Go function that returns `(A, error)`.
  abbrev pub Go : Type 0 → Type 0
  Go A = World → Outcome A × World

  module _ {A : Type 0} where
    unfoldable pub pure : A → Go A
    pure a w = (ok a, w)

    unfoldable pub fail : Error → Go A
    fail e w = (err e, w)

    unfoldable pub throw : Panic → Go A
    throw p w = (panic p, w)

    unfoldable pub diverge : Go A
    diverge w = (hang, w)

  module _ {A B : Type 0} where
    abbrev pub continue : Outcome A → (A → Go B) → Go B
    continue (ok a) f w = f a w
    continue (err e) f w = (err e, w)
    continue (panic p) f w = (panic p, w)
    continue hang f w = (hang, w)

    infixl 10 ◌>>=◌ ◌>>◌
    unfoldable pub ◌>>=◌ : Go A → (A → Go B) → Go B
    unfolding pure fail throw diverge
    ◌>>=◌ m f w = let (r, w') = m w in continue r f w'

    abbrev pub ◌>>◌ : Go A → Go B → Go B
    m >> n = m >>= λ _. n

  module _ {A : Type 0} where
    abbrev pub mapped : (Error → Error) → Outcome A → Outcome A
    mapped h (ok a) = ok a
    mapped h (err e) = err (h e)
    mapped h (panic p) = panic p
    mapped h hang = hang

    -- `if err != nil { return …, fmt.Errorf(…, err) }`
    unfoldable pub handling : (Error → Error) → Go A → Go A
    handling h m w = let (r, w') = m w in (mapped h r, w')

    abbrev pub attempted : Outcome A → Outcome (Option A)
    attempted (ok a) = ok (some a)
    attempted (err e) = ok none
    attempted (panic p) = panic p
    attempted hang = hang

    -- A call whose error is tested and then dropped.
    unfoldable pub attempt : Go A → Go (Option A)
    attempt m w = let (r, w') = m w in (attempted r, w')

  -- An operation of the machine that is an event.
  unfoldable pub perform : {A : Type 0} → Event → (P.State → A × P.State) → Go A
  perform e f w = let (a, s) = f w.state in (ok a, record { state = s; log = w.log ++ (e ∷ []) })

  -- An operation of the machine that only looks.
  unfoldable pub observe : {A : Type 0} → (P.State → A × P.State) → Go A
  observe f w = let (a, s) = f w.state in (ok a, record w { state = s })

  unfoldable pub run_process : Process → Go Completed
  run_process p = perform (ran p) (P.exec p)

  -- os.Stat
  unfoldable pub stat_path : Text → Go Stat
  stat_path path = observe (P.stat path)

  -- os.ReadFile
  unfoldable pub read_path : Text → Go Read
  read_path path = observe (P.read_file path)

  -- os.WriteFile
  unfoldable pub write_path : Text → Text → Go (Option Text)
  write_path path bytes = perform (wrote path bytes) (P.write_file path bytes)

  -- os.Create, and Write on the open file
  pub create_path : Text → Go (Option Text)
  create_path path = perform (created path) (P.create_file path)

  pub append_path : Text → Text → Go (Option Text)
  append_path path bytes = perform (appended path bytes) (P.append_file path bytes)

  -- os.Remove
  unfoldable pub remove_path : Text → Go (Option Text)
  remove_path path = perform (removed path) (P.remove_file path)

  -- The result of code that does nothing to the machine.
  unfoldable pub lift : {A : Type 0} → Outcome A → Go A
  lift r w = (r, w)

  -- A loop that ends when a check answers true. The model makes `n` checks at most.
  unfoldable pub poll_until : ℕ → Go Bool → Go (Unit {0})
  unfolding pure diverge
  poll_until zero check = diverge
  poll_until (suc n) check = do
    ready ← check
    elim ready [ true ↦ pure tt | false ↦ poll_until n check ]

  unfoldable pub fail_on : Option Text → Go (Unit {0})
  unfolding pure fail
  fail_on none = pure tt
  fail_on (some why) = fail (message why)

  -- `if err != nil { panic(err) }`
  module _ {A : Type 0} where
    abbrev pub raised_from : Outcome A → Outcome A
    raised_from (ok a) = ok a
    raised_from (err e) = panic (raised e)
    raised_from (panic p) = panic p
    raised_from hang = hang

    unfoldable pub must : Go A → Go A
    must m w = let (r, w') = m w in (raised_from r, w')
