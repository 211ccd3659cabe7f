-- ===== src/Admission.antt =====
-- internal/admission: who an object and its renewals are attributed to.
pub mod Attribution
