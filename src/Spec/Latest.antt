-- ===== src/Spec/Latest.antt =====
-- A queue of bounded size that keeps the latest messages: a send to a full one drops the first.
use message_queue_practical.Prelude.{true, List, [], ◌∷◌, foreign, leb, length, if◌then◌else◌}
use message_queue_practical.Interface.History.{
  Request, send, try_send, read, try_read, size, empty, close, Reply, returned, flag,
}
use message_queue_practical.Spec.Bounded.{Bounded, bounded, append}

module _ {V : Type 0} where
  abbrev pub drop_first : List V → List V
  drop_first [] = []
  drop_first (v ∷ rest) = rest

  abbrev pub push_latest : Bounded V → V → Bounded V
  push_latest q v = record q {
    items = append v (if leb q.capacity (length q.items) then drop_first q.items else q.items);
  }

  -- It is not closed here, so the exceptions of a closed queue do not matter.
  unfoldable pub latest : Bounded V → Request V → Reply V × Bounded V
  unfolding bounded
  latest q (send v) = (returned, push_latest q v)
  latest q (try_send v) = (flag true, push_latest q v)
  latest q read = bounded append foreign foreign q read
  latest q try_read = bounded append foreign foreign q try_read
  latest q size = bounded append foreign foreign q size
  latest q empty = bounded append foreign foreign q empty
  latest q close = bounded append foreign foreign q close
