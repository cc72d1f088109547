-- ===== src/Network.antt =====
-- network/: the client 客户端.cpp and the server 服务端.cpp.
--
-- A text is the list of its bytes. What a process does is a tree of Processes.
pub mod Client
pub mod Server
pub mod Repeats
pub mod Addresses
pub mod Descriptors
pub mod Lines
pub mod Served
pub mod Talk
mod Tests
use linux_system_code.Common.{
  ℕ, zero, suc, Bool, true, false, ◌&&◌, Option, none, some, List, [], ◌∷◌, ◌++◌, ◌==◌,
  if◌then◌else◌,
}
use linux_system_code.Processes.{Run, does, forks}

abbrev pub Text : Type 0
Text = List ℕ

-- What a process does. `sent` and `printed` are the texts that go to the connection and to the terminal.
pub data Event : Type 0 where
  created : (fd : ℕ) → Event
  closed : (fd : ℕ) → Event
  slept : (seconds : ℕ) → Event
  sent : Text → Event
  printed : Text → Event
  waited : Event

abbrev pub Process : Type 0 → Type 0
Process S = Run Event S Unit

-- `strncmp(text, word, n) == 0` for a word of n bytes without a NUL.
abbrev pub begins : (word text : Text) → Bool
begins [] text = true
begins (c ∷ cs) [] = false
begins (c ∷ cs) (d ∷ ds) = (c == d) && begins cs ds

abbrev pub exit_word : Text
exit_word = b'e' ∷ b'x' ∷ b'i' ∷ b't' ∷ []

-- The text up to the first NUL.
abbrev pub c_str : Text → Text
c_str [] = []
c_str (c ∷ cs) = if c == 0 then [] else c ∷ c_str cs

-- The descriptors that are open after the events, the last one that was created first.
abbrev pub without : ℕ → List ℕ → List ℕ
without fd [] = []
without fd (x ∷ xs) = if fd == x then xs else x ∷ without fd xs

abbrev pub left_open : List ℕ → List Event → List ℕ
left_open fds [] = fds
left_open fds (created fd ∷ es) = left_open (fd ∷ fds) es
left_open fds (closed fd ∷ es) = left_open (without fd fds) es
left_open fds (_ ∷ es) = left_open fds es

abbrev pub slept_in : List Event → List ℕ
slept_in [] = []
slept_in (slept n ∷ es) = n ∷ slept_in es
slept_in (_ ∷ es) = slept_in es

abbrev pub sent_in : List Event → List Text
sent_in [] = []
sent_in (sent t ∷ es) = t ∷ sent_in es
sent_in (_ ∷ es) = sent_in es

abbrev pub printed_in : List Event → List Text
printed_in [] = []
printed_in (printed t ∷ es) = t ∷ printed_in es
printed_in (_ ∷ es) = printed_in es

-- A descriptor or -1, as the list of the descriptors.
abbrev pub descriptors : Option ℕ → List ℕ
descriptors none = []
descriptors (some fd) = fd ∷ []

-- What is sent by the process and its children, those of a child first.
abbrev pub said : {S : Type 0} → Process S → List Text
said (does (sent t) r) = t ∷ said r
said (does _ r) = said r
said (forks c p) = said c ++ said p
said _ = []
