-- ===== src/Context/Delivery.antt =====
-- User guidance is delivered once, in order (dare_framework/guidance/guidance_queue.py and the draining
-- in dare_framework/context/context.py), against a specification that keeps a list of what was accepted.
use mathlib.Core.List.{append_assoc, append-nil, map-append}
use deterministic_agent_runt.Base.{
  ℕ, String, Bool, false, Option, none, some, is_some, List, [], ◌∷◌, ◌++◌, map, ◌≡◌, refl, sym, ap,
  ◌∙◌, keep, keep-append, length, inl, inr, Bool-cases, leb,
}
use deterministic_agent_runt.Base.Text.{strip, is_empty}
use deterministic_agent_runt.Context.Guidance.{
  GuidanceItem, GuidanceQueue, Enqueued, accepted, blank_content, queue_full, enqueue,
}
use deterministic_agent_runt.Context.Memory.{
  Message, Context, stm_add, guidance_message, add_guidance, drain_from, drain_guidance, assemble,
}

abbrev pub is_guidance : Message → Bool
is_guidance m = is_some m.guidance_id

-- the guidance in the messages, and the guidance that still waits, as messages
abbrev pub delivered : Context → List Message
delivered c = keep is_guidance c.short_term_memory

abbrev pub waiting_in : Option GuidanceQueue → List Message
waiting_in none = []
waiting_in (some q) = map guidance_message q.items

abbrev pub waiting : Context → List Message
waiting c = waiting_in c.guidance_queue

-- What users and the agent do: guidance arrives, the agent adds a message of its own, or assembles.
pub data Turn : Type 0 where
  guides : String → ℕ → String → Turn
  adds : (m : Message) → is_guidance m ≡ false → Turn
  assembles : Turn

abbrev pub accepted_items : Enqueued → List GuidanceItem
accepted_items (accepted i) = i ∷ []
accepted_items blank_content = []
accepted_items queue_full = []

-- a turn: the context afterwards, and the guidance that it accepted
abbrev pub guide_queue :
    String → ℕ → String → Option GuidanceQueue → Context → Context × List GuidanceItem
guide_queue id now content none c = (c, [])
guide_queue id now content (some q) c =
    let (q', reply) = enqueue id now content q in
    (record c { guidance_queue = some q' }, accepted_items reply)

unfoldable pub take_turn : Turn → Context → Context × List GuidanceItem
unfolding enqueue stm_add assemble
take_turn (guides id now content) c = guide_queue id now content c.guidance_queue c
take_turn (adds m own) c = (stm_add m c, [])
take_turn assembles c = ((assemble c).0, [])

unfoldable pub take_turns : List Turn → Context → Context × List GuidanceItem
unfolding take_turn
take_turns [] c = (c, [])
take_turns (t ∷ ts) c =
    let (c', new) = take_turn t c in let (c'', later) = take_turns ts c' in (c'', new ++ later)

add_guidance-memory :
    (is : List GuidanceItem) (c : Context)
    → ((add_guidance is c).short_term_memory ≡ c.short_term_memory ++ map guidance_message is)
      × ((add_guidance is c).guidance_queue ≡ c.guidance_queue)
unfolding add_guidance stm_add
add_guidance-memory [] c = (sym (append-nil _), refl)
add_guidance-memory (i ∷ is) c =
    let (memory, queue) = add_guidance-memory is (stm_add (guidance_message i) c) in
    (memory ∙ append_assoc c.short_term_memory _ _, queue)

keep-guidance :
    (is : List GuidanceItem) → keep is_guidance (map guidance_message is) ≡ map guidance_message is
keep-guidance [] = refl
keep-guidance (i ∷ is) = ap (λ (t : List Message). guidance_message i ∷ t) (keep-guidance is)

-- assembling moves what waits to what is delivered
assemble_moves :
    (c : Context) → delivered (assemble c).0 ++ waiting (assemble c).0 ≡ delivered c ++ waiting c
unfolding assemble drain_guidance
assemble_moves c = moves c.guidance_queue refl
  where
    moves :
        (o : Option GuidanceQueue)
        → c.guidance_queue ≡ o
        → delivered (drain_from o c) ++ waiting (drain_from o c) ≡ delivered c ++ waiting_in o
    moves none e = ap (λ (o : Option GuidanceQueue). delivered c ++ waiting_in o) e
    moves (some q) e =
        let emptied : Context = record c { guidance_queue = some (record q { items = [] }) } in
        let drained : Context = add_guidance q.items emptied in
        let (memory, queue) = add_guidance-memory q.items emptied in
        ap (λ (o : Option GuidanceQueue). delivered drained ++ waiting_in o) queue
        ∙ append-nil (delivered drained)
        ∙ ap (keep is_guidance) memory
        ∙ keep-append is_guidance c.short_term_memory (map guidance_message q.items)
        ∙ ap (λ (l : List Message). delivered c ++ l) (keep-guidance q.items)

-- what a turn delivers and leaves waiting, with what it accepts at the end
abbrev Kept : Context → Context × List GuidanceItem → Type 0
Kept c (c', new) =
    delivered c' ++ waiting c' ≡ (delivered c ++ waiting c) ++ map guidance_message new

enqueue-Kept :
    (id : String) (now : ℕ) (content : String) (q : GuidanceQueue)
    → map guidance_message (enqueue id now content q).0.items
      ≡ map guidance_message q.items
        ++ map guidance_message (accepted_items (enqueue id now content q).1)
unfolding enqueue
enqueue-Kept id now content q = elim (Bool-cases (is_empty (strip content))) [
  | inl e ↦ rw e (sym (append-nil _))
  | inr e ↦ elim (Bool-cases (leb q.max_size (length q.items))) [
    | inl full ↦ rw (e, full) (sym (append-nil _))
    | inr room ↦ rw (e, room) (map-append guidance_message q.items _)
  ]
]

guide-Kept :
    (id : String) (now : ℕ) (content : String) (c : Context)
    → Kept c (guide_queue id now content c.guidance_queue c)
guide-Kept id now content c = guided c.guidance_queue refl
  where
    guided :
        (o : Option GuidanceQueue) → c.guidance_queue ≡ o → Kept c (guide_queue id now content o c)
    guided none e = sym (append-nil _)
    guided (some q) e =
        ap (λ (l : List Message). delivered c ++ l) (enqueue-Kept id now content q)
        ∙ sym (append_assoc (delivered c) _ _)
        ∙ ap
            (λ (o : Option GuidanceQueue).
              (delivered c ++ waiting_in o)
              ++ map guidance_message (accepted_items (enqueue id now content q).1))
            (sym e)

turn-Kept : (t : Turn) (c : Context) → Kept c (take_turn t c)
unfolding take_turn
turn-Kept (guides id now content) c = guide-Kept id now content c
turn-Kept (adds m own) c =
    ap (λ (l : List Message). l ++ waiting c)
      (keep-append is_guidance c.short_term_memory (m ∷ []) ∙ rw own (append-nil _))
    ∙ sym (append-nil _)
turn-Kept assembles c = assemble_moves c ∙ sym (append-nil _)

-- Over any run of turns, the guidance that short-term memory holds and the guidance that still waits
-- are together, in this order, what they were at first, followed by what was accepted since: nothing
-- accepted is lost, doubled or reordered. A message that the agent adds itself is not guidance.
pub guidance_delivered_once :
    (ts : List Turn) (c : Context)
    → delivered (take_turns ts c).0 ++ waiting (take_turns ts c).0
      ≡ (delivered c ++ waiting c) ++ map guidance_message (take_turns ts c).1
unfolding take_turns
guidance_delivered_once [] c = sym (append-nil _)
guidance_delivered_once (t ∷ ts) c =
    let (c', new) = take_turn t c in
    guidance_delivered_once ts c'
    ∙ ap (λ (l : List Message). l ++ map guidance_message (take_turns ts c').1) (turn-Kept t c)
    ∙ append_assoc (delivered c ++ waiting c) (map guidance_message new)
        (map guidance_message (take_turns ts c').1)
    ∙ ap (λ (l : List Message). (delivered c ++ waiting c) ++ l)
        (sym (map-append guidance_message new (take_turns ts c').1))
