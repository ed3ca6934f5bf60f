-- ===== src/Requests/Listing.antt =====
-- internal/app/lab/ops.go, ListLabs: which labs an actor is shown. A map from courses to roles is a
-- list of pairs whose courses differ; the list of the courses taught has the order of that list,
-- where Go may range over the map in any order.
mod Tests
use cloud_lab_gateway.Common.{
  ◌≡◌, ◌≢◌, refl, ◌⊎◌, inl, inr, ◌==◌, ◌||◌, not, Bool, true, false, Option, none, some, List, [],
  ◌∷◌, arith, ℕ, if◌then◌else◌, Bool-cases, length, ap, sym, ◌∙◌,
}
use cloud_lab_gateway.Shared.{CourseId, Err, Sentinel, Outcome, ok, err, panic}
use cloud_lab_gateway.Lab.{LabState, LabInstance}
use cloud_lab_gateway.Identity
use cloud_lab_gateway.Identity.{Role, CourseRoles, teaches, can}
use cloud_lab_gateway.Ports.{Env, Entry, Call, Trace, LabListFilter, Action, pure, throw, perform}
use cloud_lab_gateway.Requests.{Actor, subject_of, resource_of}

abbrev taught_among : CourseRoles → CourseRoles → List CourseId
taught_among all [] = []
taught_among all ((c, _) ∷ m) =
    let rest = taught_among all m in if teaches all c then c ∷ rest else rest

abbrev pub taught_course_ids : Actor → List CourseId
taught_course_ids a = taught_among a.course_roles a.course_roles

abbrev pub base_filter : Option CourseId → List LabState → LabListFilter
base_filter course states = record {
  student_user_id = none;
  course_id = course;
  course_ids = [];
  states = states;
  limit = 200;
}

ask : Env → LabListFilter → Action (List LabInstance)
ask env f = perform (Call.lab_list f) (env.lab_list f)

list_taught : Env → List CourseId → List LabState → Action (List LabInstance)
unfolding ask
list_taught env [] states = pure []
list_taught env (c ∷ cs) states = ask env (record (base_filter none states) { course_ids = c ∷ cs })

list_as : Env → Role → Actor → Option CourseId → List LabState → Action (List LabInstance)
unfolding ask list_taught
list_as env Role.admin a course states = ask env (base_filter course states)
list_as env Role.teacher a (some c) states =
    if not (teaches a.course_roles c)
    then throw (Err.sentinel Sentinel.forbidden)
    else ask env (base_filter (some c) states)
list_as env Role.teacher a none states = list_taught env (taught_course_ids a) states
list_as env Role.student a course states =
    ask env (record (base_filter course states) { student_user_id = some a.user_id })

-- `has_reader` tells whether a read model is wired.
pub list_labs : Env → Bool → Actor → Option CourseId → List LabState → Action (List LabInstance)
unfolding list_as
list_labs env has_reader actor course states =
    if not has_reader
    then throw (Err.sentinel Sentinel.invalid_input)
    else list_as env actor.role actor course states

abbrev Matches : Option ℕ → ℕ → Type 0
Matches none n = Unit
Matches (some m) n = m ≡ n

abbrev Among : ℕ → List ℕ → Type 0
Among n [] = ⊥
Among n (m ∷ ms) = (m ≡ n) ⊎ Among n ms

abbrev AmongIfAny : ℕ → List ℕ → Type 0
AmongIfAny n [] = Unit
AmongIfAny n (m ∷ ms) = Among n (m ∷ ms)

-- What the filter lets through, its states and its limit aside.
pub record IsAdmitted (f : LabListFilter) (lab : LabInstance) : Type 0 where
  pub student : Matches f.student_user_id lab.student_user_id
  pub course : Matches f.course_id lab.course_id
  pub courses : AmongIfAny lab.course_id f.course_ids

abbrev IsReadable : Actor → LabInstance → Type 0
IsReadable a lab = can (subject_of a) Identity.Action.lab_read (resource_of lab) ≡ none

-- The reader is asked at most once, for labs in the states given that the actor may read.
abbrev IsScoped : Actor → List LabState → Trace → Trace → Type 0
IsScoped a states tr tr' =
    (tr' ≡ tr)
    ⊎ ((f : LabListFilter) × (e : Option Err) × (tr'
          ≡ record { call = Call.lab_list f; error = e } ∷ tr)
        × (f.states ≡ states)
        × (f.limit ≡ 200)
        × ((lab : LabInstance) → IsAdmitted f lab → IsReadable a lab))

Among-teaches :
    (c : CourseId) (all m : CourseRoles) → Among c (taught_among all m) → teaches all c ≡ true
Among-teaches c all [] h = elim h [ ]
Among-teaches c all ((d, r) ∷ m) h = ground (arith, Among-teaches c all m)

admin_reads : (a : Actor) (lab : LabInstance) → a.role ≡ Role.admin → IsReadable a lab
unfolding can
admin_reads a lab h = ground arith

teacher_reads :
    (a : Actor) (lab : LabInstance) → teaches a.course_roles lab.course_id ≡ true → IsReadable a lab
unfolding can
teacher_reads a lab h = ground arith

owner_reads : (a : Actor) (lab : LabInstance) → a.user_id ≡ lab.student_user_id → IsReadable a lab
unfolding can
owner_reads a lab h = ground arith

taught_reads :
    (a : Actor) (states : List LabState) (cs : List CourseId) (env : Env) (tr : Trace)
    → ((c : CourseId) → Among c cs → teaches a.course_roles c ≡ true)
    → IsScoped a states tr (list_taught env cs states tr).1
unfolding list_taught ask
taught_reads a states [] env tr h = inl refl
taught_reads a states (c ∷ cs) env tr h =
    inr (_, _, refl, refl, refl, λ lab m. teacher_reads a lab (h lab.course_id m.courses))

list_as-IsScoped :
    (env : Env) (a : Actor) (course : Option CourseId) (states : List LabState) (tr : Trace)
    (role : Role)
    → a.role ≡ role
    → IsScoped a states tr (list_as env role a course states tr).1
unfolding list_as ask
list_as-IsScoped env a course states tr Role.admin h =
    inr (_, _, refl, refl, refl, λ lab m. admin_reads a lab h)
list_as-IsScoped env a course states tr Role.student h =
    inr (_, _, refl, refl, refl, λ lab m. owner_reads a lab m.student)
list_as-IsScoped env a none states tr Role.teacher h =
    taught_reads a states (taught_course_ids a) env tr
      (λ c. Among-teaches c a.course_roles a.course_roles)
list_as-IsScoped env a (some c) states tr Role.teacher h =
    elim (Bool-cases (teaches a.course_roles c)) [
      | inl t ↦ rw t (
          inr (
            base_filter (some c) states,
            _,
            refl,
            refl,
            refl,
            λ lab m. let e : c ≡ lab.course_id = m.course in teacher_reads a lab cc,
          ))
      | inr f ↦ inl (ground arith)
    ]

not_longer : {A : Type 0} (x : A) (xs : List A) → xs ≢ x ∷ xs
not_longer x xs h = omega (arith, ap length h)

-- Where a request for the list of labs asks the read model with a filter, the filter has the states
-- given and the limit 200, and the policy lets the actor read every lab that the filter admits.
pub list_labs-readable :
    (env : Env) (has_reader : Bool) (a : Actor) (course : Option CourseId) (states : List LabState)
    (tr : Trace) {f : LabListFilter} {e : Option Err} (lab : LabInstance)
    → (list_labs env has_reader a course states tr).1
      ≡ record { call = Call.lab_list f; error = e } ∷ tr
    → IsAdmitted f lab
    → (f.states ≡ states)
      × (f.limit ≡ 200)
      × (can (subject_of a) Identity.Action.lab_read (resource_of lab) ≡ none)
unfolding list_labs
list_labs-readable env false a course states tr lab asked m = absurd (not_longer _ tr asked)
list_labs-readable env true a course states tr {f} {e} lab asked m =
    elim (list_as-IsScoped env a course states tr a.role refl) [
      | inl same ↦ absurd (not_longer _ tr (sym same ∙ asked))
      | inr (g, e', one, s, l, reads) ↦ let eq : g ≡ f = cc in (cc, cc, reads lab (rw eq m))
    ]
