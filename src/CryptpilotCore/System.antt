-- ===== src/CryptpilotCore/System.antt =====
-- The calls that the tools make of the kernel, of libcryptsetup and of other programs, each with what
-- it may answer.
use Prim.Native.String.{String}
use cryptpilot.Prelude.{ℕ, Bool, Option, List}
use cryptpilot.CryptpilotCore.Types.{Passphrase, KeyProviderConfig}

-- The answer of a call that may fail, with the error number if there is one.
pub data Attempt {ℓ} (A : Type ℓ) : Type ℓ where
  good : A → Attempt A
  bad : Option ℕ → Attempt A

-- What a program that ran to its end leaves: its code, and its output as bytes and as the text
-- that `from_utf8_lossy` makes of them, in code points. No code: it was killed by a signal.
pub record Output : Type 0 where
  pub code : Option ℕ
  pub stdout : List ℕ
  pub text : List ℕ

-- What is passed to `crypt_format` for LUKS2: the cipher is aes, its mode xts-plain64.
pub record FormatParams : Type 0 where
  pub device : String
  pub integrity : Option String
  pub sector_size : ℕ
  pub subsystem : String
  pub key_size : ℕ

-- `blk_io_trace`, the fields that are read.
pub record BlkTraceEvent : Type 0 where
  pub action : ℕ
  pub sector : ℕ
  pub bytes : ℕ

pub data Op : Type 0 where
  -- `Path::exists`, an open with `O_EXCL`, the first bytes of a file
  path_exists open_exclusive : String → Op
  read_first : String → ℕ → Op
  -- a program with its arguments
  command : String → List String → Op
  -- libcryptsetup
  crypt_init crypt_init_by_name crypt_load crypt_deactivate : String → Op
  crypt_format : FormatParams → Op
  crypt_add_key : String → ℕ → Passphrase → Op
  crypt_set_label : String → String → Op
  crypt_activate : Option String → String → Passphrase → Bool → Op
  -- random bytes, random letters and digits, and keys from a service
  random_bytes random_name : ℕ → Op
  fetch_key : KeyProviderConfig → Op
  -- the terminal
  is_term confirm : Op
  -- block devices: size, size of a block, the dummy device on a loop device, its trace, pages
  device_size device_block_size : String → Op
  setup_dummy : ℕ → ℕ → Op
  detach_dummy trace_start trace_stop trace_finish : String → Op
  page_size : Op
  open_device : String → Op
  read_page : String → ℕ → ℕ → Op
  write_page : String → ℕ → List ℕ → Op
  flush : String → Op
  -- directories, with what each `next_entry` gives, and text files
  read_dir read_to_string create_dir_all is_file is_dir remove_dir_all : String → Op
  write_text : String → String → Op

abbrev pub Reply : Op → Type 0
Reply (Op.path_exists path) = Bool
Reply (Op.read_first path n) = Attempt (List ℕ)
Reply (Op.command program args) = Attempt Output
Reply (Op.random_bytes n) = List ℕ
Reply (Op.random_name n) = String
Reply (Op.fetch_key provider) = Attempt Passphrase
Reply (Op.is_file path) = Bool
Reply (Op.is_dir path) = Bool
Reply Op.is_term = Bool
Reply Op.confirm = Attempt Bool
Reply (Op.device_size path) = Attempt ℕ
Reply (Op.device_block_size path) = Attempt ℕ
Reply (Op.setup_dummy size block) = Attempt String
Reply (Op.trace_finish path) = Attempt (List BlkTraceEvent)
Reply Op.page_size = Attempt ℕ
Reply (Op.read_page path offset n) = Attempt (List ℕ)
Reply (Op.read_dir path) = Attempt (List (Attempt String))
Reply (Op.read_to_string path) = Attempt String
Reply other = Attempt (Unit {0})
