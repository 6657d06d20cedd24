-- ===== src/Gdt/Tests.antt =====
-- The descriptors of a processor whose task state segment is in the upper half.
