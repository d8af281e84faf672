-- ===== src/Config.antt =====
-- simulation_config.h and simulation_config.cpp: the command line. `std::stoul` is no code of the
-- repository: it is an argument, `none` where it throws, as for a number of more than 64 bits. What is
-- printed is left out.
pub mod Arguments
use multi_constraint_iot_edg.Common.{
  ◌&&◌, ℕ, ◌%◌, ◌^◌, Bool, true, false, List, [], ◌∷◌, Option, none, some, if◌then◌else◌, Text,
  text_eq, codes, ◌||◌, u64,
}

pub record SimulationConfig : Type 0 where
  pub device_count : ℕ
  pub edge_node_count : ℕ
  pub task_count : ℕ
  pub strategy : Text
  pub scheduling : Text
  pub db_path : Text
  pub log_path : Text
  pub use_mqtt : Bool
  pub mqtt_broker : Text
  pub run_comparison : Bool
  pub verbose : Bool
  pub web_mode : Bool
  pub web_port : ℕ
  pub automatic_mode : Bool

abbrev pub default_config : SimulationConfig
default_config = record {
  device_count = 100;
  edge_node_count = 10;
  task_count = 10000;
  strategy = codes "multi_constraint";
  scheduling = codes "priority_based";
  db_path = codes "data/simulation.db";
  log_path = codes "logs/simulation.log";
  use_mqtt = false;
  mqtt_broker = codes "tcp://localhost:1883";
  run_comparison = false;
  verbose = false;
  web_mode = false;
  web_port = 8080;
  automatic_mode = false;
}

-- How the parse of a command line ends.
pub data Parse : Type 0 where
  parsed : SimulationConfig → Parse
  exits : ℕ → Parse
  throws : Parse

unfoldable pub matches_flag : Text → Text → Text → Bool
matches_flag arg short_flag long_flag = text_eq arg short_flag || text_eq arg long_flag

-- What a flag stands for, once it is known whether another argument follows.
pub data Flag : Type 0 where
  number_flag : (ℕ → SimulationConfig → SimulationConfig) → Flag
  text_flag : (Text → SimulationConfig → SimulationConfig) → Flag
  plain_flag : (SimulationConfig → SimulationConfig) → Flag
  exit_flag : ℕ → Flag

-- The chain of tests from `--mqtt` on.
later_flag : Bool → Text → Flag
later_flag has_next arg =
    if text_eq arg (codes "--mqtt")
    then plain_flag (λ c. record c { use_mqtt = true })
    else if text_eq arg (codes "--broker") && has_next
    then text_flag (λ t c. record c { mqtt_broker = t })
    else if text_eq arg (codes "--db") && has_next
    then text_flag (λ t c. record c { db_path = t })
    else if text_eq arg (codes "--verbose")
    then plain_flag (λ c. record c { verbose = true })
    else if text_eq arg (codes "--web")
    then plain_flag (λ c. record c { web_mode = true })
    else if text_eq arg (codes "--web-port") && has_next
    then number_flag (λ n c. record c { web_port = n % 2 ^ 16 })
    else if text_eq arg (codes "--automatic")
    then plain_flag (λ c. record c { automatic_mode = true })
    else if matches_flag arg (codes "-h") (codes "--help")
    then exit_flag 0
    else exit_flag 1

-- The chain of tests.
unfoldable pub classify : Bool → Text → Flag
unfolding later_flag
classify has_next arg =
    if matches_flag arg (codes "-d") (codes "--devices") && has_next
    then number_flag (λ n c. record c { device_count = n })
    else if matches_flag arg (codes "-e") (codes "--edges") && has_next
    then number_flag (λ n c. record c { edge_node_count = n })
    else if matches_flag arg (codes "-t") (codes "--tasks") && has_next
    then number_flag (λ n c. record c { task_count = n })
    else if matches_flag arg (codes "-s") (codes "--strategy") && has_next
    then text_flag (λ t c. record c { strategy = t })
    else if text_eq arg (codes "--scheduling") && has_next
    then text_flag (λ t c. record c { scheduling = t })
    else if matches_flag arg (codes "-c") (codes "--compare")
    then plain_flag (λ c. record c { run_comparison = true })
    else later_flag has_next arg

-- `parseArgs` from an argument on, with the configuration read so far. A flag that takes a value is
-- recognised only where an argument follows.
unfoldable pub parse_from : (Text → Option ℕ) → SimulationConfig → List Text → Parse
parse_from stoul config [] = parsed config
parse_from stoul config (arg ∷ []) = elim (classify false arg) [
  | number_flag f ↦ exits 1
  | text_flag f ↦ exits 1
  | plain_flag f ↦ parsed (f config)
  | exit_flag code ↦ exits code
]
parse_from stoul config (arg ∷ value ∷ rest) =
    let after_value = λ (c : SimulationConfig). parse_from stoul c rest in
    let after_flag = λ (c : SimulationConfig). parse_from stoul c (value ∷ rest) in
    elim (classify true arg) [
      | number_flag f ↦ elim (stoul value) [ some n ↦ after_value (f n config) | none ↦ throws ]
      | text_flag f ↦ after_value (f value config)
      | plain_flag f ↦ after_flag (f config)
      | exit_flag code ↦ exits code
    ]

unfoldable pub parse_args : (Text → Option ℕ) → List Text → Parse
parse_args stoul args = parse_from stoul default_config args
