-- ===== src/CommandLine.antt =====
-- The command line (include/command_line_interface.hpp, src/command_line_interface.cpp). What the
-- arguments ask of the logger, which is a library, is recorded as effects; std::stoi is a parameter.
pub mod Parsers
pub mod Decimals
pub mod Acquisition
pub mod Help
pub mod Alignment
pub mod Settings
pub mod Refusing
mod Tests
use opera.Prelude.{
  ℕ, zero, suc, ◌+◌, ◌<◌, ◌^◌, ◌≡◌, List, [], ◌∷◌, ◌++◌, Bool, true, false, not, if◌then◌else◌,
  Option, none, some, Result, ok, err, require, ◌>>=◌, ◌>>◌, length, is_nil, front, drop,
}
use opera.Prelude.Texts.{Text}

-- A queue of arguments.
abbrev pub ArgumentStream : Type 0
ArgumentStream = List Text

unfoldable pub construct : List Text → Result ArgumentStream
construct args = do require (not (is_nil args)); ok args

unfoldable pub empty : ArgumentStream → Bool
empty stream = is_nil stream

unfoldable pub size : ArgumentStream → ℕ
size stream = length stream

unfoldable pub peek : ArgumentStream → Result Text
peek stream = do require (not (empty stream)); front stream

unfoldable pub pop : ArgumentStream → Result (Text × ArgumentStream)
pop stream = do val ← peek stream; ok (val, drop 1 stream)

pub data Scheduler : Type 0 where
  immediate blocking nonblocking : Scheduler

pub data Theme : Type 0 where
  plain light dark : Theme

-- The calls of the logger.
pub data Effect : Type 0 where
  use_scheduler : Scheduler → Effect
  set_theme : Theme → Effect
  set_verbosity : ℕ → Effect

-- Its processor is what it does when it is run.
pub record ArgumentPack : Type 0 where
  pub id : Text
  pub processor : List Effect

-- The exceptions, with the long identifier of the argument.
pub data ArgumentException : Type 0 where
  missing_value invalid_value : Text → ArgumentException

pub data Consumed : Type 0 where
  consumed : ArgumentPack → ArgumentStream → Consumed
  thrown : ArgumentException → Consumed

-- `int`; `negsuc n` is -(n + 1).
pub data ℤ : Type 0 where
  pos : ℕ → ℤ
  negsuc : ℕ → ℤ

-- INT_MAX + 1
abbrev pub int_bound : ℕ
int_bound = 2 ^ 31

-- std::stoi, where `none` stands for its exceptions, std::invalid_argument and std::out_of_range:
-- what it returns is an `int`.
pub record Conversions : Type 0 where
  pub stoi : Text → Option ℤ
  pub stoi_pos : (t : Text) (n : ℕ) → stoi t ≡ some (pos n) → n < int_bound
  pub stoi_negsuc : (t : Text) (n : ℕ) → stoi t ≡ some (negsuc n) → n < int_bound
