-- ===== src/Kubernetes.antt =====
-- The parts of the Kubernetes API that the program uses: its objects, and the client. Neither is
-- code of the repository: the objects are plain data, and the client is a parameter.
pub mod Objects
pub mod Cluster
