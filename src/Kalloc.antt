-- ===== src/Kalloc.antt =====
-- The per-CPU kernel allocator as its clients see it: `m_alloc` and `m_free` of
-- include/rendezvos/mm/allocator.h. What each call of `m_alloc` answers is a parameter: the number of
-- the call and the size give a zero-filled memory, or NULL. The state counts the calls and the blocks
-- that are live.
use rendezv_os.Base.{ℕ, ◌+◌, ◌-◌, ◌≡◌, Option, none, some, List, replicate}

pub record Kalloc : Type 0 where
  pub calls : ℕ
  pub live : ℕ

abbrev pub Answers : Type 0
Answers = ℕ → ℕ → Option (List ℕ)

-- "m_alloc must ensure the memory zero-filled"
abbrev pub ZeroFilled : Answers → Type 0
ZeroFilled answers = (i n : ℕ) (mem : List ℕ) → answers i n ≡ some mem → mem ≡ replicate n 0

module _ (answers : Answers) where
  -- One call, given its answer.
  abbrev pub granted : Option (List ℕ) → Kalloc → Option (List ℕ) × Kalloc
  granted none h = (none, record h { calls = h.calls + 1 })
  granted (some mem) h = (some mem, record h { calls = h.calls + 1; live = h.live + 1 })

  abbrev pub m_alloc : ℕ → Kalloc → Option (List ℕ) × Kalloc
  m_alloc size h = granted (answers h.calls size) h

-- `m_free` of a block; of NULL it does nothing.
abbrev pub m_free : Kalloc → Kalloc
m_free h = record h { live = h.live - 1 }
