-- ===== src/GuestManager/Wait.antt =====
-- lib/cuckoo/core/guest.py, `GuestManager.wait_available` and `wait_for_completion`. Other threads write
-- the table `guests` and call `stop` meanwhile: each round of a loop brings what it finds. A loop says
-- `waiting` where the given rounds are used up.
use capev.Base.{
  Bool, if◌then◌else◌, List, [], ◌∷◌, Option, none, some, ℕ, ◌+◌, ltb, String, str_eq, true, false,
  ◌&&◌,
}
use capev.Database.Sql.{Faults}
use capev.Database.Guests.{Guests, guest_get_status, guest_set_status}
pub mod Ends

pub data Connection : Type 0 where
  connected : Connection
  refused : Connection

-- The table at the test of the loop, whether `stop` was not called, how the connection ended, and
-- the time after it.
pub record Attempt : Type 0 where
  pub faults : Faults
  pub guests : Guests
  pub do_run : Bool
  pub connection : Connection
  pub now : ℕ

pub data Availability : Type 0 where
  left : Availability
  available : Availability
  critical_timeout : Availability
  not_yet : Availability

abbrev pub is_status : String → Option String → Bool
is_status status none = false
is_status status (some s) = str_eq s status

-- The test of the loops.
unfoldable pub goes_on : Faults → ℕ → String → Guests → Bool → Bool
goes_on f task_id status g do_run = is_status status (guest_get_status f task_id g) && do_run

module _ (task_id : ℕ) where
  -- A round: whether the loop goes on, how the connection ended, whether the end has passed.
  abbrev pub attempt_with : Bool → Connection → Bool → Availability → Availability
  attempt_with false c late rest = left
  attempt_with true connected late rest = available
  attempt_with true refused true rest = critical_timeout
  attempt_with true refused false rest = rest

  unfoldable pub wait_available : ℕ → List Attempt → Availability
  unfolding goes_on
  wait_available end [] = not_yet
  wait_available end (r ∷ rs) =
      attempt_with (goes_on r.faults task_id "starting" r.guests r.do_run) r.connection
        (ltb end r.now) (wait_available end rs)

-- The answer to `/status`: none where the request or its decoding raises an error, or the status,
-- which the agent always gives; one that is a number is some other text here.
pub record Poll : Type 0 where
  pub faults : Faults
  pub guests : Guests
  pub do_run : Bool
  pub now : ℕ
  pub reply : Option String
  -- The table when the answer has come.
  pub later : Guests

pub data Completion : Type 0 where
  stopped : Completion
  end_reached : Completion
  completed : Guests → Completion
  failed : Guests → Completion
  waiting : Completion

module _ (task_id : ℕ) where
  -- `status["status"]` of the answer.
  abbrev pub replied : Poll → Option String → Completion → Completion
  replied r none rest = rest
  replied r (some status) rest =
      if str_eq status "complete"
      then completed (guest_set_status r.faults task_id "complete" r.later)
      else if str_eq status "exception"
      then failed (guest_set_status r.faults task_id "failed" r.later)
      else rest

  abbrev pub in_time : Bool → Poll → Completion → Completion
  in_time true r rest = end_reached
  in_time false r rest = replied r r.reply rest

  abbrev pub poll_with : Bool → ℕ → Poll → Completion → Completion
  poll_with false end r rest = stopped
  poll_with true end r rest = in_time (ltb end r.now) r rest

  unfoldable pub wait_for_completion : ℕ → List Poll → Completion
  unfolding goes_on
  wait_for_completion end [] = waiting
  wait_for_completion end (r ∷ rs) =
      poll_with (goes_on r.faults task_id "running" r.guests r.do_run) end r
        (wait_for_completion end rs)
