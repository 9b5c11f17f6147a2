-- ===== src/Sanitize/Smuggle.antt =====
-- The order of the two substitutions in `scrub_text`: a control character inside a marker hides it
-- from the first, and the second then takes the character away.
