-- ===== src/Queues/Tests.antt =====
-- The stacks and queues run on numbers, and their theorems at concrete inputs.
use awesome_dsa.Prelude.{
  ℕ, ◌+◌, ◌<◌, false, List, [], ◌∷◌, get_elem?, zero, suc, ◌≡◌, refl, ◌==◌, arith, none, some,
}
use awesome_dsa.Prelude.Ascending.{Each}
use awesome_dsa.Prelude.Outcome.{returns, throws, ◌>>=◌, underflow_error}
use awesome_dsa.Queues.ArrayStack
use awesome_dsa.Queues.LinkedStack
use awesome_dsa.Queues.LinkedStack.{LinkedStack}
use awesome_dsa.Queues.LinkedQueue
use awesome_dsa.Queues.LinkedQueue.{LinkedQueue}
use awesome_dsa.Queues.LinkedLaws
use awesome_dsa.Queues.LinkedClear.{clear_lem}
use awesome_dsa.Queues.CircularQueue
use awesome_dsa.Queues.CircularQueue.{CircularQueue, slot}

abbrev two : List ℕ
two = 1 ∷ 2 ∷ []

abbrev one : ℕ
one = 1

abbrev three : ℕ
three = 3

pop-push_example :
    (ArrayStack.top (ArrayStack.push three two) ≡ returns three)
    × (ArrayStack.pop (ArrayStack.push three two) ≡ returns two)
    × (ArrayStack.size (ArrayStack.push three two) ≡ ArrayStack.size two + 1)
    × (ArrayStack.empty (ArrayStack.push three two) ≡ false)
    × (ArrayStack.pop {T = ℕ} [] ≡ throws underflow_error)
    × (ArrayStack.top {T = ℕ} [] ≡ throws underflow_error)
pop-push_example = ArrayStack.pop-push three two

stack : LinkedStack ℕ
stack = LinkedStack.push 2 (LinkedStack.push 1 LinkedStack.new_stack)

stack-Holds : LinkedStack.Holds stack (2 ∷ 1 ∷ [])
unfolding stack LinkedStack.push LinkedStack.new_stack
stack-Holds = record { listed = refl; counted = refl }

stack_refines_example :
    LinkedStack.Holds (LinkedStack.push 3 stack) (3 ∷ 2 ∷ 1 ∷ [])
    × LinkedStack.Popped (2 ∷ 1 ∷ []) (LinkedStack.pop stack)
    × (LinkedStack.top stack ≡ LinkedStack.first (2 ∷ 1 ∷ []))
    × (LinkedStack.empty stack ≡ (stack.size == 0))
    × LinkedStack.Holds (LinkedStack.clear stack) []
stack_refines_example = LinkedStack.stack_refines 3 stack (2 ∷ 1 ∷ []) stack-Holds

-- `q.push(1); q.push(2); q.pop(); q.front()`, and again after the queue was emptied
queue_runs :
    (LinkedQueue.push one LinkedQueue.new_queue
      >>= LinkedQueue.push three
      >>= LinkedQueue.pop
      >>= LinkedQueue.front)
    ≡ returns three
unfolding LinkedQueue.push LinkedQueue.pop LinkedQueue.front LinkedQueue.new_queue
queue_runs = refl

queue_refines_example :
    LinkedLaws.Pushed (three ∷ []) (LinkedQueue.push three LinkedQueue.new_queue)
    × LinkedLaws.Popped {T = ℕ} [] (LinkedQueue.pop LinkedQueue.new_queue)
    × (LinkedQueue.front {T = ℕ} LinkedQueue.new_queue ≡ LinkedLaws.first [])
queue_refines_example =
    LinkedLaws.queue_refines three LinkedQueue.new_queue [] LinkedLaws.new_queue-Holds

-- a queue of three places that has gone round: 20 and 30 at the end, 40 in place 0
abbrev wrapped : CircularQueue ℕ
wrapped = record { buffer = 40 ∷ 20 ∷ 30 ∷ []; head = 1; tail = 1; size = 3 }

wrapped-placed :
    (i : ℕ) → i < 3 → get_elem? wrapped.buffer (slot 3 1 i) ≡ get_elem? (20 ∷ 30 ∷ 40 ∷ []) i
wrapped-placed zero h = refl
wrapped-placed (suc zero) h = refl
wrapped-placed (suc (suc zero)) h = refl
wrapped-placed (suc (suc (suc i))) h = absurd (omega arith)

wrapped-Holds : CircularQueue.Holds wrapped (20 ∷ 30 ∷ 40 ∷ [])
wrapped-Holds = record {
  inside = omega arith;
  counted = refl;
  fits = omega arith;
  ends = refl;
  placed = wrapped-placed;
}

push_refines_example :
    CircularQueue.Pushed 50
      (20 ∷ 30 ∷ 40 ∷ [])
      (CircularQueue.capacity wrapped)
      (CircularQueue.push 50 wrapped)
push_refines_example = CircularQueue.push_refines 50 wrapped (20 ∷ 30 ∷ 40 ∷ []) wrapped-Holds

pop-front_refines_example :
    CircularQueue.Popped (20 ∷ 30 ∷ 40 ∷ []) (CircularQueue.pop wrapped)
    × (CircularQueue.front wrapped ≡ CircularQueue.first (20 ∷ 30 ∷ 40 ∷ []))
pop-front_refines_example =
    CircularQueue.pop-front_refines wrapped (20 ∷ 30 ∷ 40 ∷ []) wrapped-Holds

-- a linked queue of one value
abbrev one_value : LinkedQueue ℕ
one_value = record {
  cells = LinkedQueue.update (λ _. none) 0 (some (record { value = three; next = none }));
  fresh = 1;
  head = some 0;
  tail = some 0;
  size = 1;
}

one_value-Holds : LinkedLaws.Holds one_value (three ∷ [])
one_value-Holds = record {
  nodes = (0, three) ∷ [];
  linked = ((none, refl, refl, (refl, tt)), (tt, tt), (omega arith, tt), refl);
  listed = refl;
  counted = refl;
}

clear_lem_example :
    (q' : LinkedQueue ℕ) × (LinkedQueue.clear 1 one_value ≡ some (returns q'))
    × LinkedLaws.Holds q' []
    × Each {A = ℕ × ℕ} (λ x. q'.cells x.0 ≡ none) one_value-Holds.nodes
clear_lem_example = clear_lem one_value (three ∷ []) 1 one_value-Holds (omega arith)
