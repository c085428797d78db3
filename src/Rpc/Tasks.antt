-- ===== src/Rpc/Tasks.antt =====
-- The tasks that the answers of libcwmp/src/session.c put into the queue.
use netcwmp.Common.{◌≡◌, refl, ◌≢◌, true, [], ◌∷◌, ◌++◌, Option, none, some, ℤ, pos}
use netcwmp.Xml.{Xml}
use netcwmp.Soap.{Names}
use netcwmp.Queue.{null}
use netcwmp.Queue.Chain.{Cells}
use netcwmp.Queue.Fifo.{Repr, pushed, queue_push-Repr}
use netcwmp.Request.Transfer.{
  parse_download_message, parse_upload_message, clone_download_arg, clone_upload_arg,
}
use netcwmp.Rpc.{
  Argument, Device, Memory, Reply, reply, pushed_reply, respond_download, respond_upload,
  respond_reboot, respond_factoryreset,
}
use netcwmp.Rpc.Dispatch.{Request, respond}

-- The requests that leave a task, with its type and content.
pub data Leaves (n : Names) (doc : Xml) : Request → ℤ → Option Argument → Type 0 where
  a_download :
      Leaves n doc Request.download
        (pos 1)
        (some (Argument.download (parse_download_message n doc)))
  an_upload :
      Leaves n doc Request.upload (pos 2) (some (Argument.upload (parse_upload_message n doc)))
  a_reboot : Leaves n doc Request.reboot (pos 3) none
  a_factoryreset : Leaves n doc Request.factoryreset (pos 4) none

module _ {S : Type 0} (n : Names) (mem : Memory) (doc : Xml) (d : Device S) where
  -- A document is the answer, and the queue stands for the tasks before with one behind them.
  abbrev pub Queued : Cells Argument → ℤ → Option Argument → Reply S → Type 0
  Queued xs tag content r =
      (out : Xml) × (d' : Device S) × (r ≡ reply (some out) d')
      × (d'.state ≡ d.state)
      × Repr d'.queue (xs ++ (mem.fresh, pushed content tag) ∷ [])

  module _ (xs : Cells Argument) (fresh : mem.fresh ≢ null) (unused : d.queue.heap mem.fresh ≡ none)
      (q : Repr d.queue xs) (cloned : mem.cloned ≡ true) where
    pushed_reply-Queued :
        (content : Option Argument) (tag : ℤ) (answer : Xml)
        → Queued xs tag content (pushed_reply n mem content tag answer d)
    unfolding pushed_reply
    pushed_reply-Queued content tag answer =
        let (q', e, repr) = queue_push-Repr mem.fresh content tag d.queue xs fresh unused q in
        (answer, record d { queue = q' }, rw (e, pushed_reply) refl, refl, repr)

    -- A Download, Upload, Reboot or FactoryReset request, where memory can be allocated, is answered
    -- with a document and puts its task behind those in the queue: the copied arguments of the
    -- request with the type 1 or 2, or no argument with the type 3 or 4.
    pub respond-Queued :
        (r : Request) (tag : ℤ) (content : Option Argument)
        → Leaves n doc r tag content
        → Queued xs tag content (respond n mem r doc d)
    unfolding respond respond_download respond_upload respond_reboot respond_factoryreset
        clone_download_arg clone_upload_arg
    respond-Queued r tag content Leaves.a_download =
        rw (cloned, clone_download_arg) (pushed_reply-Queued _ _ _)
    respond-Queued r tag content Leaves.an_upload =
        rw (cloned, clone_upload_arg) (pushed_reply-Queued _ _ _)
    respond-Queued r tag content Leaves.a_reboot = pushed_reply-Queued _ _ _
    respond-Queued r tag content Leaves.a_factoryreset = pushed_reply-Queued _ _ _
