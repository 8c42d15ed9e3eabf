-- ===== src/Oneshot.antt =====
-- tokio's oneshot channels of response payloads, as an interface, and cells as an instance of it.
use mom_rpc.Base.{refl, ◌≡◌, String}
use mom_rpc.Domain.{Bytes}

-- What the receiver sees.
pub data Poll : Type 0 where
  waiting : Poll
  ready : Bytes → Poll
  closed : Poll

pub record Oneshots : Type 1 where
  pub Cell : Type 0
  -- oneshot::channel()
  pub channel : Cell
  -- Sender::send, and a sender that goes away unused.
  pub send : Cell → Bytes → Cell
  pub drop_sender : Cell → Cell
  pub poll : Cell → Poll
  -- RecvError in its debug format.
  pub recv_error : String
  pub poll-channel : poll channel ≡ waiting
  pub poll-send : (c : Cell) (b : Bytes) → poll c ≡ waiting → poll (send c b) ≡ ready b
  pub poll-drop_sender : (c : Cell) → poll c ≡ waiting → poll (drop_sender c) ≡ closed

abbrev pub fill : Poll → Bytes → Poll
fill waiting b = ready b
fill (ready a) b = ready a
fill closed b = closed

abbrev pub give_up : Poll → Poll
give_up waiting = closed
give_up (ready a) = ready a
give_up closed = closed

pub fill-waiting : (c : Poll) (b : Bytes) → c ≡ waiting → fill c b ≡ ready b
fill-waiting c b h = rw h

pub give_up-waiting : (c : Poll) → c ≡ waiting → give_up c ≡ closed
give_up-waiting c h = rw h

abbrev pub cells : Oneshots
cells = record {
  Cell = Poll;
  channel = waiting;
  send = fill;
  drop_sender = give_up;
  poll = λ c. c;
  recv_error = "RecvError(())";
  poll-channel = refl;
  poll-send = fill-waiting;
  poll-drop_sender = give_up-waiting;
}
