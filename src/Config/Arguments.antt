-- ===== src/Config/Arguments.antt =====
-- The command line of simulation_config.cpp, written and read back.
use multi_constraint_iot_edg.Common.{
  text_eq, ℕ, ◌%◌, ◌^◌, ◌<◌, ◌≡◌, refl, Bool, true, false, List, [], ◌∷◌, ◌++◌, Option, some, Text,
  codes, All, if◌then◌else◌, ◌∙◌,
}
use multi_constraint_iot_edg.Config.{
  SimulationConfig, default_config, parsed, parse_from, parse_args, classify, later_flag,
  matches_flag,
}

-- What a user may set in a call of the program; the Boolean asks for the short form of the flag.
pub data Setting : Type 0 where
  devices edges tasks : Bool → ℕ → Setting
  strategy : Bool → Text → Setting
  compare : Bool → Setting
  scheduling broker db : Text → Setting
  port : ℕ → Setting
  mqtt verbose web automatic : Setting

abbrev flag : Bool → Text → Text → Text
flag short a b = if short then a else b

-- The arguments that ask for a setting, with its number as `show` writes it.
pub arguments : (ℕ → Text) → Setting → List Text
arguments show (devices short n) = flag short (codes "-d") (codes "--devices") ∷ show n ∷ []
arguments show (edges short n) = flag short (codes "-e") (codes "--edges") ∷ show n ∷ []
arguments show (tasks short n) = flag short (codes "-t") (codes "--tasks") ∷ show n ∷ []
arguments show (strategy short t) = flag short (codes "-s") (codes "--strategy") ∷ t ∷ []
arguments show (compare short) = flag short (codes "-c") (codes "--compare") ∷ []
arguments show (scheduling t) = codes "--scheduling" ∷ t ∷ []
arguments show (broker t) = codes "--broker" ∷ t ∷ []
arguments show (db t) = codes "--db" ∷ t ∷ []
arguments show (port n) = codes "--web-port" ∷ show n ∷ []
arguments show mqtt = codes "--mqtt" ∷ []
arguments show verbose = codes "--verbose" ∷ []
arguments show web = codes "--web" ∷ []
arguments show automatic = codes "--automatic" ∷ []

pub all_arguments : (ℕ → Text) → List Setting → List Text
unfolding arguments
all_arguments show [] = []
all_arguments show (s ∷ settings) = arguments show s ++ all_arguments show settings

-- The field that a setting is for.
pub put : Setting → SimulationConfig → SimulationConfig
put (devices short n) c = record c { device_count = n }
put (edges short n) c = record c { edge_node_count = n }
put (tasks short n) c = record c { task_count = n }
put (strategy short t) c = record c { strategy = t }
put (compare short) c = record c { run_comparison = true }
put (scheduling t) c = record c { scheduling = t }
put (broker t) c = record c { mqtt_broker = t }
put (db t) c = record c { db_path = t }
put (port n) c = record c { web_port = n % 2 ^ 16 }
put mqtt c = record c { use_mqtt = true }
put verbose c = record c { verbose = true }
put web c = record c { web_mode = true }
put automatic c = record c { automatic_mode = true }

pub put_all : List Setting → SimulationConfig → SimulationConfig
unfolding put
put_all [] c = c
put_all (s ∷ settings) c = put_all settings (put s c)

-- The numbers have 64 bits.
abbrev pub Fits : Setting → Type 0
Fits (devices short n) = n < 2 ^ 64
Fits (edges short n) = n < 2 ^ 64
Fits (tasks short n) = n < 2 ^ 64
Fits (port n) = n < 2 ^ 64
Fits _ = Unit

module _ (stoul : Text → Option ℕ) (show : ℕ → Text)
    (reads : (n : ℕ) → n < 2 ^ 64 → stoul (show n) ≡ some n) where
  parse_from-put :
      (s : Setting) (rest : List Text) (c : SimulationConfig)
      → Fits s
      → parse_from stoul c (arguments show s ++ rest) ≡ parse_from stoul (put s c) rest
  unfolding parse_from classify later_flag matches_flag text_eq arguments put
  parse_from-put (devices true n) rest c h = rw (reads n h) refl
  parse_from-put (devices false n) rest c h = rw (reads n h) refl
  parse_from-put (edges true n) rest c h = rw (reads n h) refl
  parse_from-put (edges false n) rest c h = rw (reads n h) refl
  parse_from-put (tasks true n) rest c h = rw (reads n h) refl
  parse_from-put (tasks false n) rest c h = rw (reads n h) refl
  parse_from-put (strategy true t) rest c h = refl
  parse_from-put (strategy false t) rest c h = refl
  parse_from-put (compare true) [] c h = refl
  parse_from-put (compare true) (next ∷ rest) c h = refl
  parse_from-put (compare false) [] c h = refl
  parse_from-put (compare false) (next ∷ rest) c h = refl
  parse_from-put (scheduling t) rest c h = refl
  parse_from-put (broker t) rest c h = refl
  parse_from-put (db t) rest c h = refl
  parse_from-put (port n) rest c h = rw (reads n h) refl
  parse_from-put mqtt [] c h = refl
  parse_from-put mqtt (next ∷ rest) c h = refl
  parse_from-put verbose [] c h = refl
  parse_from-put verbose (next ∷ rest) c h = refl
  parse_from-put web [] c h = refl
  parse_from-put web (next ∷ rest) c h = refl
  parse_from-put automatic [] c h = refl
  parse_from-put automatic (next ∷ rest) c h = refl

  parse_from-put_all :
      (settings : List Setting) (c : SimulationConfig)
      → All Fits settings
      → parse_from stoul c (all_arguments show settings) ≡ parsed (put_all settings c)
  unfolding all_arguments put_all parse_from
  parse_from-put_all [] c h = refl
  parse_from-put_all (s ∷ settings) c h =
      parse_from-put s (all_arguments show settings) c h.0
      ∙ parse_from-put_all settings (put s c) h.1

  -- Settings in any number and order, with short and long flags and arbitrary texts, are read back: each
  -- arrives in its field, a later one in place of an earlier, the port modulo 2 ^ 16, and the other
  -- fields have their defaults. The numbers have 64 bits, and `std::stoul` reads what such a number is
  -- written as.
  pub parse_args-arguments :
      (settings : List Setting)
      → All Fits settings
      → parse_args stoul (all_arguments show settings) ≡ parsed (put_all settings default_config)
  unfolding parse_args
  parse_args-arguments settings h = parse_from-put_all settings default_config h
