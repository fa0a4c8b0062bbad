-- ===== src/Cache/Generations.antt =====
-- internal/repository/redis/redistask/task.go: any number of clients that list tasks, and that write,
-- interleaved in any order: the commands of `List` and `retireLists` for one filter, one step each. The
-- table is its version, which every committed write raises; a page is the version that it shows. A
-- token that is drawn is a new one, so tokens are numbers in the order in which they are drawn. Redis
-- answers the writers in the end; any key may expire or be evicted at any time.
pub mod Fresh
pub mod Current
use graph_code_challenge.Cache.Clients.{set_at}
use graph_code_challenge.Prelude.{eqb, if◌then◌else◌, ◌≡◌, suc, some, none, ℕ, Option, Bool}

pub data Place : Type 0 where
  away : Place
  has_generation : ℕ → Place
  misses_page : ℕ → Place
  has_page : ℕ → ℕ → Place
  has_committed : Place

pub record Lists : Type 0 where
  pub version : ℕ
  pub generation : Option ℕ
  pub pages : ℕ → Option ℕ
  pub drawn : ℕ

abbrev pub put_page : (ℕ → Option ℕ) → ℕ → Option ℕ → ℕ → Option ℕ
put_page pages g v h = if eqb g h then v else pages h

-- A step of a client: the script that gives the generation, or makes one; the page that is looked up
-- under it, found or not; the repository's answer, which is stored under that generation, or not.
pub data Move (m : Lists) : Place → Lists → Place → Type 0 where
  reads_generation : (g : ℕ) → m.generation ≡ some g → Move m away m (has_generation g)
  makes_generation :
      m.generation ≡ none
      → Move m away
          (record m { generation = some m.drawn; drawn = suc m.drawn })
          (has_generation m.drawn)
  finds_page : (g v : ℕ) → m.pages g ≡ some v → Move m (has_generation g) m away
  misses_page_now : (g : ℕ) → Move m (has_generation g) m (misses_page g)
  reads_table : (g : ℕ) → Move m (misses_page g) m (has_page g m.version)
  list_fails : (g : ℕ) → Move m (misses_page g) m away
  stores_page :
      (g v : ℕ) → Move m (has_page g v) (record m { pages = put_page m.pages g (some v) }) away
  store_fails : (g v : ℕ) → Move m (has_page g v) m away
  commits : Move m away (record m { version = suc m.version }) has_committed
  retires_lists :
      Move m has_committed (record m { generation = some m.drawn; drawn = suc m.drawn }) away

pub record World : Type 0 where
  pub lists : Lists
  pub place : ℕ → Place

pub data Step (s : World) : World → Type 0 where
  moves :
      (i : ℕ) {m : Lists} {p : Place}
      → Move s.lists (s.place i) m p
      → Step s (record { lists = m; place = set_at s.place i p })
  generation_expires : Step s (record s { lists = record s.lists { generation = none } })
  page_expires :
      (g : ℕ)
      → Step s (record s { lists = record s.lists { pages = put_page s.lists.pages g none } })

abbrev pub start : World
start = record {
  lists = record { version = 0; generation = none; pages = λ g. none; drawn = 0 };
  place = λ i. away;
}

pub data Reach : World → Type 0 where
  begins : Reach start
  later : {s t : World} → Reach s → Step s t → Reach t
